-- ===== src/Execution/Gateway/Balances.antt =====
-- execution/gateway.py: balances on the chain, from the first node that answers. What a node answers is an
-- argument, `none` where the call raised.
pub mod Nodes
pub mod Answer
use poly_maker.Prelude.{
  Bool, true, false, not, ◌&&◌, ◌||◌, Option, none, some, List, [], ◌∷◌, ◌++◌, String,
  if◌then◌else◌, leb, ltb, is_empty,
}
use poly_maker.Prelude.Int.{ℤ}
use poly_maker.Prelude.Eq.{◌==◌, string_eq, nat_eq}
use poly_maker.Float.{Float, num, dec, ◌⊕◌, ◌⊖◌, ◌⊘◌, ◌≤?◌, ◌<?◌, ◌=?◌}
use poly_maker.Dict.{Dict, lookup, insert, member}

-- `dict.fromkeys(rpcs)`: the first of each, in order
abbrev pub dedupe : List String → List String → List String
dedupe seen [] = []
dedupe seen (r ∷ rs) = if member r seen then dedupe seen rs else r ∷ dedupe (r ∷ seen) rs

module _ {W : Type 0} ⦃f : Float W⦄ where
  -- The inner loop of `token_balances`, from what one node answers for each token
  unfoldable pub node_balances :
      (String → Option ℤ) → List String → Dict String W → Option (Dict String W)
  node_balances ask [] d = some d
  node_balances ask (t ∷ ts) d = elim (ask t) as (λ _. Option (Dict String W)) [
    | none ↦ none
    | some raw ↦ node_balances ask ts (insert t (f.of_int raw ⊘ num 1_000_000) d)
  ]

  abbrev pub or_else : Option (Dict String W) → Option (Dict String W) → Option (Dict String W)
  or_else none b = b
  or_else (some d) b = some d

  -- The loop over the nodes: one that raises is passed over.
  abbrev pub first_node :
      (String → String → Option ℤ) → List String → List String → Option (Dict String W)
  first_node ask tokens [] = none
  first_node ask tokens (r ∷ rs) =
      or_else (node_balances (ask r) tokens []) (first_node ask tokens rs)

  -- `token_balances`: the nodes are asked in turn, the configured one first.
  unfoldable pub token_balances :
      (String → String → Option ℤ) → List String → List String → Option (Dict String W)
  unfolding node_balances
  token_balances ask rpcs [] = some []
  token_balances ask rpcs (t ∷ ts) = first_node ask (t ∷ ts) (dedupe [] rpcs)

  -- `_token_balance_opt`
  unfoldable pub token_balance_opt : (String → String → Option ℤ) → List String → String → Option W
  unfolding node_balances
  token_balance_opt ask rpcs t =
      elim (first_node ask (t ∷ []) (dedupe [] rpcs)) as (λ _. Option W) [
        | none ↦ none
        | some d ↦ lookup t d
      ]

  -- `token_balance`
  abbrev pub token_balance : (String → String → Option ℤ) → List String → String → W
  unfolding token_balance_opt
  token_balance ask rpcs t = elim (token_balance_opt ask rpcs t) as (λ _. W) [
    | none ↦ num 0
    | some x ↦ x
  ]
