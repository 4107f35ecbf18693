-- ===== src/Admission/Messages/Received.antt =====
-- The network enforcers take the messages one by one; what a removal keeps and what it takes away.
use workload_compactor.Base.{
  ℕ, ◌≡◌, refl, true, false, ◌==◌, ==_iff, if◌then◌else◌, List, [], ◌∷◌, ◌++◌, Option, none, some,
  String, Double, All, string_key, nat_key,
}
use workload_compactor.Base.Table.{lookup, erase}
use workload_compactor.Base.Table.Distinct.{
  IsDistinct, lookup-erase, lookup-erase-none, erase-IsDistinct,
}
use workload_compactor.Shaping.Clients.{
  Addr, addr_key, Client, Enforcer, update_known, update_at, update_client, update_clients_svc,
  remove_clients_svc,
}
use workload_compactor.Admission.Messages.{Message, update_net, remove_net, update_storage}
use workload_compactor.Admission.Messages.Removals.{if_holds}

module _ {W : Type 0} where
  -- No client of the enforcer has the address.
  abbrev pub IsAbsent : Addr → Enforcer W → Type 0
  IsAbsent a s = lookup a s.clients ≡ none

  abbrev pub HasOneOfEach : Enforcer W → Type 0
  HasOneOfEach s = IsDistinct s.clients

  -- A message by which DelClient removes a client.
  abbrev pub Removes : Message W → Type 0
  Removes (update_net e u) = true ≡ false
  Removes (remove_net e a) = Unit
  Removes (update_storage e c) = Unit

  -- The network enforcers do not know the address of the client that a message updated there.
  abbrev pub IsCleared : (String → Enforcer W) → Message W → Type 0
  IsCleared net (update_net e u) = lookup u.client (net e).clients ≡ none
  IsCleared net (remove_net e a) = Unit
  IsCleared net (update_storage e c) = Unit

module _ {W : Type 0} ⦃d : Double W⦄ (num_priorities max_rate : ℕ) (to_unsigned : W → ℕ)
    (times : ℕ → ℕ) (get_sent_bytes : ℕ → ℕ → ℕ) where
  abbrev pub without_client : Addr → Enforcer W → Enforcer W
  without_client a s =
      (remove_clients_svc num_priorities max_rate to_unsigned times get_sent_bytes (a ∷ []) s).1

  -- The network enforcer at an address serves the messages to it.
  unfoldable pub receive : String → Message W → Enforcer W → Enforcer W
  receive host (update_net e u) s =
      if string_key.beq e host
      then (update_clients_svc num_priorities max_rate to_unsigned times get_sent_bytes (u ∷ [])
          s).1
      else s
  receive host (remove_net e a) s = if string_key.beq e host then without_client a s else s
  receive host (update_storage e c) s = s

  unfoldable pub receive_all : String → List (Message W) → Enforcer W → Enforcer W
  unfolding receive
  receive_all host [] s = s
  receive_all host (m ∷ ms) s = receive_all host ms (receive host m s)

  -- After a removal the table is as it was, without the address, or as it was where that is unknown.
  without_client-erases :
      (P : Enforcer W → Type 0) (a : Addr) (s : Enforcer W)
      → (lookup a s.clients ≡ none → P s)
      → P (record s { clients = erase a s.clients })
      → P (without_client a s)
  unfolding remove_clients_svc update_client update_at update_known
  without_client-erases P a s unknown known = cases (lookup a s.clients) refl
    where
      same : (num_priorities == num_priorities) ≡ true
      same = (==_iff num_priorities num_priorities).1 refl

      cases :
          (o : Option (Client W))
          → lookup a s.clients ≡ o
          → P
              (update_at num_priorities max_rate to_unsigned
                (times 0)
                get_sent_bytes
                a
                num_priorities
                []
                o
                s).1
      cases none e = rw same (unknown e)
      cases (some c) e = rw same known

  pub without_client-IsAbsent :
      (a : Addr) (s : Enforcer W) → HasOneOfEach s → IsAbsent a (without_client a s)
  without_client-IsAbsent a s d =
      without_client-erases (IsAbsent a) a s (λ h. h) (lookup-erase a s.clients d)

  receive-IsAbsent :
      (host : String) (m : Message W) (a : Addr) (s : Enforcer W)
      → Removes m
      → IsAbsent a s
      → IsAbsent a (receive host m s)
  unfolding receive
  receive-IsAbsent host (update_net e u) a s r h = cc
  receive-IsAbsent host (remove_net e b) a s r h =
      if_holds (IsAbsent a) (string_key.beq e host)
        (without_client-erases (IsAbsent a) b s (λ q. h) (lookup-erase-none a b s.clients h)) h
  receive-IsAbsent host (update_storage e c) a s r h = h

  receive-HasOneOfEach :
      (host : String) (m : Message W) (s : Enforcer W)
      → Removes m
      → HasOneOfEach s
      → HasOneOfEach (receive host m s)
  unfolding receive
  receive-HasOneOfEach host (update_net e u) s r d = cc
  receive-HasOneOfEach host (remove_net e b) s r d =
      if_holds HasOneOfEach (string_key.beq e host)
        (without_client-erases HasOneOfEach b s (λ q. d) (erase-IsDistinct b s.clients d)) d
  receive-HasOneOfEach host (update_storage e c) s r d = d

  pub receive_all-IsAbsent :
      (host : String) (ms : List (Message W)) (a : Addr) (s : Enforcer W)
      → All Removes ms
      → IsAbsent a s
      → IsAbsent a (receive_all host ms s)
  unfolding receive_all
  receive_all-IsAbsent host [] a s r h = h
  receive_all-IsAbsent host (m ∷ ms) a s r h =
      receive_all-IsAbsent host ms a (receive host m s) r.1 (receive-IsAbsent host m a s r.0 h)

  pub receive_all-HasOneOfEach :
      (host : String) (ms : List (Message W)) (s : Enforcer W)
      → All Removes ms
      → HasOneOfEach s
      → HasOneOfEach (receive_all host ms s)
  unfolding receive_all
  receive_all-HasOneOfEach host [] s r d = d
  receive_all-HasOneOfEach host (m ∷ ms) s r d =
      receive_all-HasOneOfEach host ms (receive host m s) r.1 (receive-HasOneOfEach host m s r.0 d)

  pub receive_all-append :
      (host : String) (ms more : List (Message W)) (s : Enforcer W)
      → receive_all host (ms ++ more) s ≡ receive_all host more (receive_all host ms s)
  unfolding receive_all
  receive_all-append host [] more s = refl
  receive_all-append host (m ∷ ms) more s = receive_all-append host ms more (receive host m s)
