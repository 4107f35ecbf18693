-- ===== src/Traces/Reader/Whole.antt =====
-- A loop over a trace that was reset sees all of it.
use workload_compactor.Base.{
  suc, ◌+◌, ◌%◌, ◌^◌, ◌<◌, ◌≡◌, refl, sym, ap, subst, true, List, [], ◌∷◌, ◌++◌, some, none, Double,
  bind-some, arith, length, length-append, ltb, get_elem?,
}
use workload_compactor.Traces.Estimators.{Estimator}
use workload_compactor.Traces.Reader.{
  TraceEntry, TraceReader, ProcessedTraceEntry, next_entry, reset, processed, processed_all,
  read_next, read_all,
}

get_elem?-append :
    {A : Type 0} (xs : List A) (y : A) (ys : List A)
    → get_elem? (xs ++ (y ∷ ys)) (length xs) ≡ some y
get_elem?-append [] y ys = refl
get_elem?-append (x ∷ xs) y ys = get_elem?-append xs y ys

append_assoc :
    {A : Type 0} (xs : List A) (y : A) (ys : List A) → (xs ++ (y ∷ [])) ++ ys ≡ xs ++ (y ∷ ys)
append_assoc [] y ys = refl
append_assoc (x ∷ xs) y ys = ap (λ zs. x ∷ zs) (append_assoc xs y ys)

-- The reader stands after the first entries.
abbrev at : List TraceEntry → List TraceEntry → TraceReader
at seen left = record { trace = seen ++ left; cur_index = length seen }

next_entry-end : (seen : List TraceEntry) → next_entry (at seen []) ≡ none
unfolding next_entry
next_entry-end seen = ground (arith, length-append seen [])

next_entry-at :
    (seen : List TraceEntry) (e : TraceEntry) (left : List TraceEntry)
    → length (seen ++ (e ∷ left)) < 2 ^ 32
    → next_entry (at seen (e ∷ left)) ≡ some (e, at (seen ++ (e ∷ [])) left)
unfolding next_entry
next_entry-at seen e left h =
    let inside : ltb (length seen) (length (seen ++ (e ∷ left))) ≡ true =
      ground (arith, length-append seen (e ∷ left)) in
    let small : (length seen + 1) % 2 ^ 32 ≡ length (seen ++ (e ∷ [])) =
      omega (arith, h, length-append seen (e ∷ left), length-append seen (e ∷ [])) in
    rw (inside, get_elem?-append seen e left, next_entry)
      (ap (λ (r : TraceReader). some (e, r))
        (λ i. record { trace = sym (append_assoc seen e left) i; cur_index = small i }))

module _ {W : Type 0} ⦃d : Double W⦄ (est : Estimator W) where
  read_all-at :
      (seen left : List TraceEntry) (ps : List (ProcessedTraceEntry W))
      → length (seen ++ left) < 2 ^ 32
      → processed_all est left ≡ some ps
      → (r : TraceReader) × (read_all (suc (length left)) est (at seen left) ≡ some (ps, r))
  unfolding read_all read_next processed_all
  read_all-at seen [] ps h e =
      let same : [] ≡ ps = cc in
      (at seen [], rw (next_entry-end seen, read_next) (ap (λ qs. some (qs, at seen [])) same))
  read_all-at seen (x ∷ left) ps h e =
      let (p, here, a) = bind-some (processed est x) _ ps e in
      let (qs, rest, b) = bind-some (processed_all est left) _ ps a in
      let same : p ∷ qs ≡ ps = cc in
      let (r, run) =
        read_all-at (seen ++ (x ∷ [])) left qs
          (subst (λ xs. length xs < 2 ^ 32) (sym (append_assoc seen x left)) h) rest in
      (r, rw (next_entry-at seen x left h, here, run, read_next) (ap (λ zs. some (zs, r)) same))

  -- For a trace of fewer than 2^32 requests whose work the estimator gives: a loop over nextEntry, once
  -- the trace is reset, ends after it has seen the work of every request, in the order of the trace.
  pub read_all-reset :
      (r : TraceReader) (ps : List (ProcessedTraceEntry W))
      → length r.trace < 2 ^ 32
      → processed_all est r.trace ≡ some ps
      → (t : TraceReader) × (read_all (suc (length r.trace)) est (reset r) ≡ some (ps, t))
  unfolding reset
  read_all-reset r ps h e = read_all-at [] r.trace ps h e
