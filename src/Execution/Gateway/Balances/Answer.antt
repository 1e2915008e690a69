-- ===== src/Execution/Gateway/Balances/Answer.antt =====
-- execution/gateway.py: what an answer of `token_balances` says of each token.
use mathlib.Core.Option.{some-injective}
use mathlib.Core.Path.{subst}
use poly_maker.Prelude.{
  ◌≡◌, ◌∙◌, ◌⊎◌, refl, true, false, Option, none, some, List, [], ◌∷◌, String, arith, IfSome,
  Option-cases, Bool-cases, inl, inr, is_some,
}
use poly_maker.Prelude.Int.{ℤ}
use poly_maker.Prelude.Eq.{◌==◌, string_eq, same_self}
use poly_maker.Float.{Float, num, ◌⊘◌}
use poly_maker.Dict.{Dict, lookup, insert, member, lookup-insert}
use poly_maker.Execution.Gateway.Balances.{dedupe, node_balances, first_node, token_balances}
use poly_maker.Execution.Gateway.Balances.Nodes.{
  member_of_dedupe, IsSnapshot, node_balances-IsSnapshot,
}

module _ {W : Type 0} where
  -- No token has two entries.
  abbrev pub HasDistinctTokens : Dict String W → Type 0
  HasDistinctTokens [] = Unit
  HasDistinctTokens ((t, c) ∷ d) = (lookup t d ≡ none) × HasDistinctTokens d

  insert-HasDistinctTokens :
      (t : String) (c : W) (d : Dict String W)
      → HasDistinctTokens d
      → HasDistinctTokens (insert t c d)
  insert-HasDistinctTokens t c [] h = (refl, tt)
  insert-HasDistinctTokens t c ((k, v) ∷ d) h = elim (Bool-cases (k == t)) [
    | inl same ↦ rw same h
    | inr other ↦ rw other (
      ground (arith, lookup-insert t k c d, h.0, string_eq.same_iff k t, string_eq.same_iff t k),
      insert-HasDistinctTokens t c d h.1,
    )
  ]

module _ {W : Type 0} ⦃f : Float W⦄ where
  node_balances-HasDistinctTokens :
      (ask : String → Option ℤ) (tokens : List String) (old d : Dict String W)
      → HasDistinctTokens old
      → node_balances ask tokens old ≡ some d
      → HasDistinctTokens d
  unfolding node_balances
  node_balances-HasDistinctTokens ask [] old d h e =
      subst (λ x. HasDistinctTokens x) (some-injective _ _ e) h
  node_balances-HasDistinctTokens ask (t ∷ ts) old d h e = elim (Option-cases (ask t)) [
    | inl silent ↦ cc (rw (silent, node_balances) at e)
    | inr (raw, said) ↦
        node_balances-HasDistinctTokens ask ts (insert t (f.of_int raw ⊘ num 1_000_000) old) d
          (insert-HasDistinctTokens t _ old h) (rw (said, node_balances) at e)
  ]

  node_balances-said :
      (ask : String → Option ℤ) (tokens : List String) (old d : Dict String W) (u : String)
      → node_balances ask tokens old ≡ some d
      → member u tokens ≡ true
      → is_some (ask u) ≡ true
  unfolding node_balances
  node_balances-said ask [] old d u e m = cc m
  node_balances-said ask (t ∷ ts) old d u e m = elim (Option-cases (ask t)) [
    | inl silent ↦ cc (rw (silent, node_balances) at e)
    | inr (raw, said) ↦ elim (Bool-cases (t == u)) [
      | inl same ↦
          subst (λ k. is_some (ask k) ≡ true) ((string_eq.same_iff t u).0 same) (rw said refl)
      | inr other ↦
          node_balances-said ask ts (insert t (f.of_int raw ⊘ num 1_000_000) old) d u
            (rw (said, node_balances) at e) (rw other at m)
    ]
  ]

  -- The answer is that of a node of the list.
  abbrev IsOf : (String → String → Option ℤ) → List String → List String → Dict String W → Type 0
  IsOf ask rpcs tokens d =
      (rpc : String) × (member rpc rpcs ≡ true) × (node_balances (ask rpc) tokens [] ≡ some d)

  first_node-IsOf :
      (ask : String → String → Option ℤ) (tokens rpcs : List String) (d : Dict String W)
      → first_node ask tokens rpcs ≡ some d
      → IsOf ask rpcs tokens d
  first_node-IsOf ask tokens [] d e = cc e
  first_node-IsOf ask tokens (r ∷ rs) d e =
      elim (Option-cases (node_balances {W = W} (ask r) tokens [])) [
        | inr (found, said) ↦ (r, ground (arith, same_self r), said ∙ first found e said)
        | inl silent ↦
            let (rpc, among, said) = first_node-IsOf ask tokens rs d (rw silent at e) in
            (rpc, ground (arith, among), said)
      ]
    where
      first :
          (found : Dict String W)
          → first_node ask tokens (r ∷ rs) ≡ some d
          → node_balances (ask r) tokens [] ≡ some found
          → some found ≡ some d
      first found e said = rw said at e

  -- What the answer says of a token: nothing if it was not asked for, else what a node said, in shares
  abbrev pub IsSaid :
      (String → String → Option ℤ) → List String → List String → Dict String W → String → Type 0
  IsSaid ask rpcs tokens d u =
      (member u tokens ≡ false) × (lookup u d ≡ none)
      ⊎ (member u tokens ≡ true)
        × (rpc : String) × (member rpc rpcs ≡ true)
        × (raw : ℤ) × (ask rpc u ≡ some raw)
        × (lookup u d ≡ some (f.of_int raw ⊘ num 1_000_000))

  IsOf-IsSaid :
      (ask : String → String → Option ℤ) (rpcs tokens : List String) (d : Dict String W)
      (u : String)
      → IsOf ask rpcs tokens d
      → IsSaid ask rpcs tokens d u
  IsOf-IsSaid ask rpcs tokens d u (rpc, among, e) =
      let shot : IsSnapshot (ask rpc) tokens [] d =
        subst (IfSome (IsSnapshot (ask rpc) tokens [])) e
          (node_balances-IsSnapshot (ask rpc) tokens []) in
      elim (Bool-cases (member u tokens)) [
        | inr absent ↦ inl (absent, rw absent at (shot u))
        | inl asked ↦ elim (Option-cases (ask rpc u)) [
          | inl silent ↦ cc (rw silent at (node_balances-said (ask rpc) tokens [] d u e asked))
          | inr (raw, said) ↦
              inr (asked, rpc, among, raw, said, ground (arith, shot u, asked, said))
        ]
      ]

  pub token_balances-IsSaid :
      (ask : String → String → Option ℤ) (rpcs tokens : List String) (d : Dict String W)
      (u : String)
      → token_balances ask rpcs tokens ≡ some d
      → IsSaid ask rpcs tokens d u
  unfolding token_balances
  token_balances-IsSaid ask rpcs [] d u e =
      inl (refl, subst (λ x. lookup u x ≡ none) (some-injective _ _ e) refl)
  token_balances-IsSaid ask rpcs (t ∷ ts) d u e =
      let (rpc, among, said) = first_node-IsOf ask (t ∷ ts) (dedupe [] rpcs) d e in
      IsOf-IsSaid ask rpcs (t ∷ ts) d u (rpc, member_of_dedupe rpc [] rpcs among, said)

  pub token_balances-HasDistinctTokens :
      (ask : String → String → Option ℤ) (rpcs tokens : List String) (d : Dict String W)
      → token_balances ask rpcs tokens ≡ some d
      → HasDistinctTokens d
  unfolding token_balances
  token_balances-HasDistinctTokens ask rpcs [] d e =
      subst (λ x. HasDistinctTokens x) (some-injective _ _ e) tt
  token_balances-HasDistinctTokens ask rpcs (t ∷ ts) d e =
      let (rpc, among, said) = first_node-IsOf ask (t ∷ ts) (dedupe [] rpcs) d e in
      node_balances-HasDistinctTokens (ask rpc) (t ∷ ts) [] d tt said
