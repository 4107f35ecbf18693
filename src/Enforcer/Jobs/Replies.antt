-- ===== src/Enforcer/Jobs/Replies.antt =====
-- What becomes of a request: one reply, or a job.
use workload_compactor.Base.{
  ltb, ltb→lt, ℕ, ◌-◌, ◌<◌, ◌≤◌, ◌^◌, ◌≡◌, ◌⊎◌, inl, inr, refl, subst, ◌==◌, ==_iff, Bool, true,
  false, not, if◌then◌else◌, Bool-cases, Option, Option-cases, List, [], ◌∷◌, none, some, arith,
  length, Double, pos, negsuc, nat_key,
}
use workload_compactor.Enforcer.Procedures.{XdrProc, procedures, codecs_at, codecs_of}
use workload_compactor.Enforcer.Jobs.{
  Transport, Arguments, Request, Call, fill_job, new_job, read_or_write, decode_job, init_job,
}

codecs_at-bounds :
    (n : ℕ) (ps : List (XdrProc × XdrProc)) (p : XdrProc × XdrProc)
    → codecs_at n ps ≡ some p
    → ((1 ≤ n) × (n ≤ length ps)) ⊎ (n ≡ 0)
unfolding codecs_at
codecs_at-bounds n [] p e = cc
codecs_at-bounds n (q ∷ ps) p e = elim (Bool-cases (n == 1)) [
  | inl h ↦ let one : n ≡ 1 = (==_iff n 1).0 h in inl (omega (arith, one), omega (arith, one))
  | inr h ↦
      let rest : codecs_at (n - 1) ps ≡ some p =
        subst (λ b. (if b then some q else codecs_at (n - 1) ps) ≡ some p) h e in
      elim (codecs_at-bounds (n - 1) ps p rest) [
        | inl (l, r) ↦ inl (omega (arith, l), omega (arith, r))
        | inr z ↦ let other : ¬ (n ≡ 1) = λ k. ground (arith, h, k) in inr (omega (arith, z, other))
      ]
]

length-procedures : length procedures ≡ 21
unfolding procedures
length-procedures = refl

module _ {W : Type 0} ⦃d : Double W⦄ where
  -- A job of the request: of its procedure and caller, immediate unless it reads or writes, and of a
  -- size that is the count of bytes if that is below 2^31, and negative if not.
  abbrev pub IsJobOf : ℕ → Transport → Arguments → Request W → Type 0
  IsJobOf p t args r =
      (r.job.rq_proc ≡ p)
      × (r.job.s_addr ≡ t.s_addr)
      × (r.xprt ≡ t.xprt)
      × (r.job.immediate ≡ not (read_or_write p))
      × (((read_or_write p ≡ false) × (r.job.request_size ≡ pos 0))
          ⊎ (((args.count < 2 ^ 31) × (r.job.request_size ≡ pos args.count))
              ⊎ ((2 ^ 31 ≤ args.count) × (r.job.request_size ≡ negsuc (2 ^ 32 - args.count - 1)))))

  fill_job-IsJobOf :
      (job_id p : ℕ) (t : Transport) (codecs : XdrProc × XdrProc) (args : Arguments) (r : Request W)
      → fill_job job_id p t codecs args ≡ r
      → IsJobOf p t args r
  unfolding fill_job new_job
  fill_job-IsJobOf job_id p t codecs args r e =
      subst (IsJobOf p t args) e
        (refl, refl, refl, refl, size (read_or_write p) (ltb args.count (2 ^ 31)) refl)
    where
      size :
          (b c : Bool)
          → ltb args.count (2 ^ 31) ≡ c
          → ((b ≡ false)
              × ((if b
                    then (if c then pos args.count else negsuc (2 ^ 32 - args.count - 1))
                    else pos 0)
                  ≡ pos 0))
            ⊎ (((args.count < 2 ^ 31)
                  × ((if b
                        then (if c then pos args.count else negsuc (2 ^ 32 - args.count - 1))
                        else pos 0)
                      ≡ pos args.count))
                ⊎ ((2 ^ 31 ≤ args.count)
                    × ((if b
                          then (if c then pos args.count else negsuc (2 ^ 32 - args.count - 1))
                          else pos 0)
                        ≡ negsuc (2 ^ 32 - args.count - 1))))
      size false c e = inl (refl, refl)
      size true true e = inr (inl (ltb→lt args.count (2 ^ 31) e, refl))
      size true false e = inr (inr (ground (arith, e), refl))

  -- The request either gets one reply and no job, or no reply yet and a job.
  abbrev pub Answered :
      (XdrProc → Option Arguments) → ℕ → Transport → List Call × Option (Request W) → Type 0
  Answered getargs p t o =
      ((length o.0 ≡ 1) × (o.1 ≡ none))
      ⊎ ((codecs : XdrProc × XdrProc) × (args : Arguments) × (r : Request W) × (o ≡ ([], some r))
          × (codecs_of p ≡ some codecs)
          × (getargs codecs.0 ≡ some args)
          × (1 ≤ p)
          × (p ≤ 21)
          × IsJobOf p t args r)

  decode_job-Answered :
      (getargs : XdrProc → Option Arguments) (job_id p : ℕ) (t : Transport)
      (o : Option (XdrProc × XdrProc))
      → codecs_of p ≡ o
      → ¬ (p ≡ 0)
      → Answered getargs p t (decode_job getargs job_id p t o)
  unfolding decode_job codecs_of
  decode_job-Answered getargs job_id p t none e h = inl (refl, refl)
  decode_job-Answered getargs job_id p t (some codecs) e h =
      elim (Option-cases (getargs codecs.0)) [
        | inl g ↦ inl (rw (g, decode_job) refl, rw (g, decode_job) refl)
        | inr (args, g) ↦
            let bounds = codecs_at-bounds p procedures codecs e in
            inr (
              codecs,
              args,
              fill_job job_id p t codecs args,
              rw (g, decode_job) refl,
              e,
              g,
              omega (arith, bounds, h),
              omega (arith, bounds, h, length-procedures),
              fill_job-IsJobOf job_id p t codecs args (fill_job job_id p t codecs args) refl,
            )
      ]

  -- InitJob, whatever the procedure and the arguments: it either replies once and makes no job; or it
  -- makes a job and no reply, and then the procedure is one of NFS, from 1 to 21, its arguments were
  -- decoded, and the job is of the caller and the transport, immediate unless it reads or writes, with
  -- the count of bytes as its size, which is a negative number from 2^31 on.
  pub init_job-Answered :
      (getargs : XdrProc → Option Arguments) (job_id p : ℕ) (t : Transport)
      → Answered getargs p t (init_job getargs job_id p t)
  unfolding init_job
  init_job-Answered getargs job_id p t = elim (Bool-cases (p == 0)) [
    | inl h ↦ inl (rw (h, init_job) refl, rw (h, init_job) refl)
    | inr h ↦
        rw (h, init_job)
          (decode_job-Answered getargs job_id p t (codecs_of p) refl (λ k. ground (arith, h, k)))
  ]
