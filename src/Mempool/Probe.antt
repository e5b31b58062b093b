-- ===== src/Mempool/Probe.antt =====
-- `probe_state_for` and `pending_nonce` of src/mempool.py: the ledger with the pending transactions
-- of an address applied, in the order of their nonces.
use lapsecoin.Prelude.{
  String, ◌≡◌, refl, Bool, false, Option, none, some, List, [], ◌∷◌, map, if◌then◌else◌,
}
use lapsecoin.Prelude.Int.{ℤ, pos, leb_ℤ, ltb_ℤ}
use lapsecoin.Prelude.Result.{Result, ok, ◌>>=◌, >>=-eq-ok, ok-injective}
use mathlib.Core.Path.{subst}
use lapsecoin.Dict.{Dict}
use lapsecoin.Json.{Json, Fields, obj, get, is_str}
use lapsecoin.Tx.{int_field}
use lapsecoin.State
use lapsecoin.State.{State}
use lapsecoin.State.Ledger.{IsLedger}
use lapsecoin.State.Apply.{apply_tx-IsLedger}
use lapsecoin.Chain.{apply_all}
use lapsecoin.Mempool.{Rates, Entry, Mempool}
use lapsecoin.Mempool.Overlay.{Overlay, over, apply_tx}
use lapsecoin.Mempool.Overlay.Agrees.{Agrees, over-Agrees, apply_tx-Agrees}

-- `e.tx.get("from") == addr`
abbrev sent_by : String → Option Json → Bool
sent_by addr none = false
sent_by addr (some v) = is_str v addr

-- `sorted(..., key=lambda t: t["nonce"])`: the keys first, then a stable sort.
unfoldable pub with_nonces : List Fields → Result (List (ℤ × Fields))
with_nonces [] = ok []
with_nonces (t ∷ ts) = do nonce ← int_field "nonce" t; rest ← with_nonces ts; ok ((nonce, t) ∷ rest)

unfoldable pub insert_by_nonce : ℤ → Fields → List (ℤ × Fields) → List (ℤ × Fields)
insert_by_nonce n t [] = (n, t) ∷ []
insert_by_nonce n t ((m, u) ∷ l) =
    if leb_ℤ n m then (n, t) ∷ (m, u) ∷ l else (m, u) ∷ insert_by_nonce n t l

unfoldable pub sort_by_nonce : List (ℤ × Fields) → List (ℤ × Fields)
sort_by_nonce [] = []
sort_by_nonce ((n, t) ∷ l) = insert_by_nonce n t (sort_by_nonce l)

unfoldable pub apply_pending : List Fields → Overlay → Result Overlay
apply_pending [] o = ok o
apply_pending (t ∷ ts) o = do o' ← apply_tx t o; apply_pending ts o'

-- `max(nonces) if nonces else 0`
abbrev largest : List (ℤ × Fields) → ℤ → ℤ
largest [] n = n
largest ((m, t) ∷ l) n = largest l (if ltb_ℤ n m then m else n)

abbrev largest_or_zero : List (ℤ × Fields) → ℤ
largest_or_zero [] = pos 0
largest_or_zero ((m, t) ∷ l) = largest l m

module _ (rates : Rates) where
  unfoldable pub pending : String → Dict (Entry rates) → List Fields
  pending addr [] = []
  pending addr ((h, e) ∷ d) =
      let rest = pending addr d in if sent_by addr (get "from" e.tx) then e.tx ∷ rest else rest

  unfoldable pub pending_nonce : String → Mempool rates → Result ℤ
  pending_nonce addr p = do l ← with_nonces (pending addr p.pool); ok (largest_or_zero l)

  -- The pending transactions of an address, in the order in which they are applied.
  unfoldable pub in_nonce_order : String → Mempool rates → Result (List Fields)
  in_nonce_order addr p = do
    l ← with_nonces (pending addr p.pool)
    ok (map (λ e. e.1) (sort_by_nonce l))

  unfoldable pub probe_state_for : String → State → Mempool rates → Result Overlay
  probe_state_for addr s p = do ts ← in_nonce_order addr p; apply_pending ts (over s)

  apply_pending-Agrees :
      (ts : List Fields) (o : Overlay) (s : State) {s' : State}
      → IsLedger s
      → Agrees o s
      → apply_all (map obj ts) s ≡ ok s'
      → (o' : Overlay) × (apply_pending ts o ≡ ok o') × Agrees o' s'
  unfolding apply_pending apply_all
  apply_pending-Agrees [] o s l h e = (o, refl, subst (Agrees o) (ok-injective e) h)
  apply_pending-Agrees (t ∷ ts) o s l h e =
      let (next, e0, r0) = >>=-eq-ok (State.apply_tx t s) _ e in
      let (o1, e1, h1) = apply_tx-Agrees t o s l h e0 in
      let (o2, e2, h2) = apply_pending-Agrees ts o1 next (apply_tx-IsLedger t s l e0) h1 r0 in
      (o2, rw e1 e2, h2)

  -- Where the pending transactions of an address, in the order of their nonces, can be applied to
  -- a well-formed ledger, the probe is made without an exception and shows for every address the
  -- balance and the nonce that the ledger would then have.
  pub probe_state_for-Agrees :
      (addr : String) (s : State) (p : Mempool rates) (ts : List Fields) {s' : State}
      → IsLedger s
      → in_nonce_order addr p ≡ ok ts
      → apply_all (map obj ts) s ≡ ok s'
      → (o : Overlay) × (probe_state_for addr s p ≡ ok o) × Agrees o s'
  unfolding probe_state_for
  probe_state_for-Agrees addr s p ts l e f =
      let (o, e1, h) = apply_pending-Agrees ts (over s) s l (over-Agrees s) f in (o, rw e e1, h)
