-- ===== src/Node/Live/Moved.antt =====
-- What an offered chain leaves of a node of src/node.py: the same hint, and what it took.
use lapsecoin.Prelude.{ℕ, ◌≡◌, refl, sym, ap, List, [], ◌∷◌, if-cases}
use mathlib.Core.Path.{subst}
use lapsecoin.Prelude.Int.{ℤ}
use lapsecoin.Prelude.Result.{
  Result, Check, ok, refused, raised, ◌>>=◌, >>=-eq-ok, ok-injective, not_better,
}
use lapsecoin.Tx.Signature.{LruCache}
use lapsecoin.Block.{Block, World}
use lapsecoin.Chain.{ChainState}
use lapsecoin.Chain.Fork.Search.{first_difference}
use lapsecoin.Mempool.{Rates}
use lapsecoin.Node.{Node, height, drop, remember_state, forget_states_from, evaluate_remote_chain}
use lapsecoin.Node.Adopt.{Adopted, evaluate_remote_chain-Adopted}
use lapsecoin.Node.Judge.{VerdictCache}
use lapsecoin.Node.Live.{
  Live, switch_to, taken, salvaged, is_not_better, settled, with_signatures, apply_better_chain,
}

switch_to-cs :
    (cs : ChainState) (node : Node) {node' : Node} → switch_to cs node ≡ ok node' → node'.cs ≡ cs
unfolding switch_to remember_state
switch_to-cs cs node e =
    let (h, e0, r0) = >>=-eq-ok (height cs) _ e in ap (λ (n : Node). n.cs) (sym (ok-injective r0))

module _ (w : World) (lru : LruCache) (vc : VerdictCache) (rates : Rates) where
  -- The node after a chain was offered: what it has if it took it, and the same hint.
  pub record Moved (remote : List Block) (before after : Live w lru vc rates) (r : Check)
      : Type 0 where
    pub hint-eq : after.hint ≡ before.hint
    pub adopted : r ≡ ok tt → Adopted w lru before.node.cs remote after.node.cs

  taken-Moved :
      (time fork : ℕ) (remote : List Block) (cs : ChainState) (n : Result Node)
      (before live : Live w lru vc rates)
      → live.hint ≡ before.hint
      → Adopted w lru before.node.cs remote cs
      → ((node : Node) → n ≡ ok node → node.cs ≡ cs)
      → let r = taken w lru vc rates time fork remote cs n live in Moved remote before r.1 r.0
  taken-Moved time fork remote cs (ok node) before live h b same = record {
    hint-eq = h;
    adopted = λ _. subst (Adopted w lru before.node.cs remote) (sym (same node refl)) b;
  }
  taken-Moved time fork remote cs (refused e) before live h b same = record {
    hint-eq = h;
    adopted = λ no. cc;
  }
  taken-Moved time fork remote cs (raised x) before live h b same = record {
    hint-eq = h;
    adopted = λ no. cc;
  }

  refused-Moved :
      (remote : List Block) (c : Check) (before after : Live w lru vc rates)
      → after.hint ≡ before.hint
      → Moved remote before after (do u ← c; refused not_better)
  refused-Moved remote (ok u) before after h = record { hint-eq = h; adopted = λ no. cc }
  refused-Moved remote (refused e) before after h = record { hint-eq = h; adopted = λ no. cc }
  refused-Moved remote (raised e) before after h = record { hint-eq = h; adopted = λ no. cc }

  salvaged-Moved :
      (remote : List Block) (time fork : ℕ) (tail : List Block) (before live : Live w lru vc rates)
      → live.hint ≡ before.hint
      → let s = salvaged w lru vc rates time fork tail live in Moved remote before s.1 s.0
  salvaged-Moved remote time fork [] before live h = record { hint-eq = h; adopted = λ no. cc }
  salvaged-Moved remote time fork (b ∷ tail) before live h = refused-Moved remote _ before _ h

  settled-Moved :
      (r : Result ChainState) (time fork : ℕ) (remote : List Block)
      (before live : Live w lru vc rates)
      → live.hint ≡ before.hint
      → ((cs : ChainState) → r ≡ ok cs → Adopted w lru before.node.cs remote cs)
      → let s = settled w lru vc rates r time fork remote live in Moved remote before s.1 s.0
  settled-Moved (ok cs) time fork remote before live h b =
      taken-Moved time fork remote cs (switch_to cs (forget_states_from fork live.node)) before live
        h (b cs refl) (λ node e. switch_to-cs cs (forget_states_from fork live.node) e)
  settled-Moved (refused e) time fork remote before live h b =
      if-cases (λ (s : Check × Live w lru vc rates). Moved remote before s.1 s.0)
        (salvaged w lru vc rates time fork (drop fork remote) live) (refused e, live)
        (is_not_better e) (λ _. salvaged-Moved remote time fork (drop fork remote) before live h)
        (λ _. record { hint-eq = h; adopted = λ no. cc })
  settled-Moved (raised x) time fork remote before live h b = record {
    hint-eq = h;
    adopted = λ no. cc;
  }

  pub apply_better_chain-Moved :
      (clock : ℕ → ℤ) (time : ℕ) (remote : List Block) (live : Live w lru vc rates)
      → let s = apply_better_chain w lru vc rates clock time remote live in
        Moved remote live s.1 s.0
  unfolding apply_better_chain
  apply_better_chain-Moved clock time remote live =
      settled-Moved (evaluate_remote_chain w lru live.node clock remote live.memory.signatures).0
        time (first_difference live.node.cs.chain remote) remote live
        (with_signatures w lru vc rates
          (evaluate_remote_chain w lru live.node clock remote live.memory.signatures).1 live)
        refl
        (λ cs e.
          evaluate_remote_chain-Adopted w lru live.node clock remote live.memory.signatures e)
