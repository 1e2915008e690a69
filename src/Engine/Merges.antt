-- ===== src/Engine/Merges.antt =====
-- engine.py: the task of a merge, from the balances on the chain; `none` is a read that failed.
pub mod Single
use poly_maker.Prelude.{Bool, true, false, Option, none, some, List, [], ◌∷◌, String, if◌then◌else◌}
use poly_maker.Prelude.Int.{ℤ, pos, leb_ℤ}
use poly_maker.Prelude.Eq.{string_eq}
use poly_maker.Float.{Float, num, ◌⊗◌, ◌<?◌, fmin}
use poly_maker.Dict.{Dict, lookup_or}
use poly_maker.Domain.{MarketMeta, yes_token, no_token}
use poly_maker.Engine.{Market, Engine, on_market}

module _ {W : Type 0} ⦃f : Float W⦄ where
  -- `int(x)`
  abbrev pub trunc : W → ℤ
  trunc x = if x <? num 0 then f.ceil x else f.floor x

  -- The amount that `_merge_task` merges: no more than either balance, where they were read
  unfoldable pub merge_amount : MarketMeta W → W → Option (Dict String W) → W
  merge_amount meta asked none = asked
  merge_amount meta asked (some []) = asked
  merge_amount meta asked (some (b ∷ bals)) =
      fmin (fmin asked (lookup_or (yes_token meta) (num 0) (b ∷ bals)))
        (lookup_or (no_token meta) (num 0) (b ∷ bals))

  -- The call of the merger: the condition id, the amount in millionths, and whether it is a neg-risk
  -- market
  unfoldable pub merge_call : MarketMeta W → W → Option (Dict String W) → Option (String × ℤ × Bool)
  unfolding merge_amount
  merge_call meta asked bals =
      let raw = trunc (merge_amount meta asked bals ⊗ num 1_000_000) in
      if leb_ℤ raw (pos 0) then none else some (meta.condition_id, raw, meta.neg_risk)

module _ {W D : Type 0} where
  -- The `finally` of `_merge_task`
  unfoldable pub end_merge : String → Engine W D → Engine W D
  end_merge cid e = on_market cid (λ (m : Market W). record m { merging = false }) e

module _ {W D : Type 0} ⦃f : Float W⦄ where
  -- `_merge_task`, whatever becomes of its call
  unfoldable pub merge_task :
      String
      → MarketMeta W
      → W
      → Option (Dict String W)
      → Engine W D
      → Option (String × ℤ × Bool) × Engine W D
  unfolding merge_call end_merge
  merge_task cid meta asked bals e = (merge_call meta asked bals, end_merge cid e)
