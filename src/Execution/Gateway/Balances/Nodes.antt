-- ===== src/Execution/Gateway/Balances/Nodes.antt =====
-- execution/gateway.py: the balances on the chain come from one node.
use poly_maker.Prelude.{
  ◌≡◌, refl, true, Option, none, some, List, [], ◌∷◌, String, if◌then◌else◌, arith, IfSome,
  Option-cases, inl, inr,
}
use poly_maker.Prelude.Int.{ℤ}
use poly_maker.Prelude.Eq.{string_eq, same_self}
use poly_maker.Float.{Float, num, ◌⊘◌}
use poly_maker.Dict.{Dict, lookup, insert, member, lookup-insert}
use poly_maker.Execution.Gateway.Balances.{
  dedupe, node_balances, or_else, first_node, token_balances,
}

pub member_of_dedupe :
    (x : String) (seen rpcs : List String)
    → member x (dedupe seen rpcs) ≡ true
    → member x rpcs ≡ true
member_of_dedupe x seen [] h = h
member_of_dedupe x seen (r ∷ rs) h =
    ground (arith, member_of_dedupe x seen rs, member_of_dedupe x (r ∷ seen) rs)

module _ {W : Type 0} ⦃f : Float W⦄ where
  -- What one node says of a token, in shares
  abbrev pub shares_at : (String → Option ℤ) → String → Option W
  shares_at ask t = elim (ask t) as (λ _. Option W) [
    | none ↦ none
    | some raw ↦ some (f.of_int raw ⊘ num 1_000_000)
  ]

  -- The dictionary has the node's balance of each token asked for, and else what it had.
  abbrev pub IsSnapshot : (String → Option ℤ) → List String → Dict String W → Dict String W → Type 0
  IsSnapshot ask tokens old d =
      (t : String) → lookup t d ≡ (if member t tokens then shares_at ask t else lookup t old)

  IsSnapshot-cons :
      (ask : String → Option ℤ) (x : String) (xs : List String) (old : Dict String W) (raw : ℤ)
      → ask x ≡ some raw
      → (d : Dict String W) → IsSnapshot ask xs (insert x (f.of_int raw ⊘ num 1_000_000) old) d
      → IsSnapshot ask (x ∷ xs) old d
  IsSnapshot-cons ask x xs old raw e d h t =
      ground (
        arith,
        h t,
        lookup-insert x t (f.of_int raw ⊘ num 1_000_000) old,
        string_eq.same_iff x t,
        e,
      )

  IfSome-map :
      (P Q : Dict String W → Type 0) (o : Option (Dict String W))
      → ((d : Dict String W) → P d → Q d)
      → IfSome P o
      → IfSome Q o
  IfSome-map P Q none h a = tt
  IfSome-map P Q (some d) h a = h d a

  pub node_balances-IsSnapshot :
      (ask : String → Option ℤ) (tokens : List String) (old : Dict String W)
      → IfSome (IsSnapshot ask tokens old) (node_balances ask tokens old)
  unfolding node_balances
  node_balances-IsSnapshot ask [] old = λ t. refl
  node_balances-IsSnapshot ask (x ∷ xs) old = elim (Option-cases (ask x)) [
    | inl silent ↦ rw (silent, node_balances) tt
    | inr (raw, e) ↦
        rw (e, node_balances)
          (IfSome-map _ (IsSnapshot ask (x ∷ xs) old) _ (IsSnapshot-cons ask x xs old raw e)
            (node_balances-IsSnapshot ask xs (insert x (f.of_int raw ⊘ num 1_000_000) old)))
  ]

  -- One node of the list gave every balance asked for, and nothing else is there.
  abbrev pub FromOne :
      (String → String → Option ℤ) → List String → List String → Dict String W → Type 0
  FromOne ask tokens rpcs d =
      (rpc : String) × (member rpc rpcs ≡ true)
      × ((t : String) → lookup t d ≡ (if member t tokens then shares_at (ask rpc) t else none))

  IfSome-or_else :
      (P : Dict String W → Type 0) (a b : Option (Dict String W))
      → IfSome P a
      → IfSome P b
      → IfSome P (or_else a b)
  IfSome-or_else P none b h k = k
  IfSome-or_else P (some d) b h k = h

module _ (W : Type 0) ⦃f : Float W⦄ where
  first_node-FromOne :
      (ask : String → String → Option ℤ) (tokens rpcs : List String)
      → IfSome (FromOne {W = W} ask tokens rpcs) (first_node ask tokens rpcs)
  first_node-FromOne ask tokens [] = tt
  first_node-FromOne ask tokens (r ∷ rs) =
      IfSome-or_else (FromOne ask tokens (r ∷ rs)) _ _
        (IfSome-map (IsSnapshot (ask r) tokens []) (FromOne ask tokens (r ∷ rs)) _
          (λ d h. (r, ground (arith, same_self r), h)) (node_balances-IsSnapshot (ask r) tokens []))
        (IfSome-map (FromOne ask tokens rs) (FromOne ask tokens (r ∷ rs)) _
          (λ d one. (one.0, ground (arith, one.1), one.2)) (first_node-FromOne ask tokens rs))

  -- The balances of several tokens are one node's: if there are any, a single node of the list gave the
  -- balance of every token asked for, in shares, and no other token has an entry.
  pub token_balances_one_node :
      (ask : String → String → Option ℤ) (rpcs : List String) (t : String) (ts : List String)
      → IfSome (FromOne {W = W} ask (t ∷ ts) rpcs) (token_balances ask rpcs (t ∷ ts))
  unfolding token_balances
  token_balances_one_node ask rpcs t ts =
      IfSome-map (FromOne ask (t ∷ ts) (dedupe [] rpcs)) (FromOne ask (t ∷ ts) rpcs) _
        (λ d one. (one.0, member_of_dedupe one.0 [] rpcs one.1, one.2))
        (first_node-FromOne ask (t ∷ ts) (dedupe [] rpcs))
