-- ===== src/Tests/Merges.antt =====
-- The theorems on merges, from the engine to the wallet, and on balances, at concrete inputs.
use poly_maker.Prelude.{
  ℕ, zero, suc, ◌≡◌, ◌<◌, refl, true, false, none, some, List, [], ◌∷◌, ◌++◌, String, All, length,
  arith,
}
use poly_maker.Prelude.Int.{pos, leb_ℤ}
use poly_maker.Prelude.Eq.{string_eq}
use poly_maker.Float.{num, ◌⊗◌, ◌≼◌}
use poly_maker.Float.Fixed.{Fixed, fixed_float, Fixed-IsOrdered}
use poly_maker.Dict.{Dict, lookup_or, AllDistinct}
use poly_maker.Text.{codes}
use poly_maker.Config.{WalletConfig, Secrets}
use poly_maker.Domain.{yes_token, no_token}
use poly_maker.Engine.{Engine}
use poly_maker.Engine.Quoter.{Planned}
use poly_maker.Engine.Requests.{maybe_merge}
use poly_maker.Engine.Merges.{trunc, merge_call}
use poly_maker.Engine.Merges.Single.{
  started, here, next, requotes, merges_one_at_a_time, merge_call_lem,
}
use poly_maker.Merger.{Chain, MergeCall, to_bytes32, can_merge, inner_merge_call, merge}
use poly_maker.Merger.Hex.{Digits, number_of, to_bytes32_lem}
use poly_maker.Merger.Paths.{SentBy, merge-SentBy}
use poly_maker.Tests.{whole, a_market}
use poly_maker.Tests.Engines.{an_engine, some_settings, some_plan}

-- A plan of a market with both tokens
abbrev both_plan : Planned Fixed
both_plan = record some_plan { size_no = whole 25 }

abbrev State : Type 0
State = Engine Fixed (List (Fixed × Fixed)) × List String

abbrev requoted : State → State
unfolding maybe_merge
requoted s = (
  (maybe_merge some_settings "c1" both_plan s.0).1,
  started (maybe_merge some_settings "c1" both_plan s.0).0 ++ s.1,
)

-- The first requote starts a merge, the second one does not.
merges_one_at_a_time_example : AllDistinct (requoted (requoted (an_engine, []))).1
unfolding requoted
merges_one_at_a_time_example =
    merges_one_at_a_time some_settings {s = (an_engine, [])}
      (next (next here (requotes "c1" both_plan an_engine [] refl))
        (requotes "c1" both_plan (requoted (an_engine, [])).0 (requoted (an_engine, [])).1 refl))
      refl

abbrev some_balances : Dict String Fixed
some_balances = ("yes", whole 8) ∷ ("no", whole 30) ∷ []

merge_call_lem_example :
    (leb_ℤ (pos 8_000_000) (pos 0) ≡ false)
    × ("c1" ≡ a_market.condition_id)
    × (false ≡ a_market.neg_risk)
    × ((amount : Fixed) × (pos 8_000_000 ≡ trunc (amount ⊗ num 1_000_000))
        × (amount ≼ whole 20)
        × ((b : String × Fixed) (d : Dict String Fixed)
            → some some_balances ≡ some (b ∷ d)
            → (amount ≼ lookup_or (yes_token a_market) (num 0) (b ∷ d))
              × (amount ≼ lookup_or (no_token a_market) (num 0) (b ∷ d))))
unfolding merge_call
merge_call_lem_example =
    merge_call_lem Fixed-IsOrdered a_market (whole 20) (some some_balances) "c1" (pos 8_000_000)
      false refl

to_bytes32_lem_example :
    (bytes : List ℕ) × (to_bytes32 (codes "0xA1f") ≡ some bytes)
    × (length bytes ≡ 32)
    × All (λ b. b < 256) bytes
    × (number_of 256 0 bytes ≡ number_of 16 0 (10 ∷ 1 ∷ 15 ∷ []))
to_bytes32_lem_example =
    to_bytes32_lem (codes "0xA1f") (10 ∷ 1 ∷ 15 ∷ [])
      (Digits.cons refl (Digits.cons refl (Digits.cons refl Digits.nil))) (omega arith)

abbrev a_safe : WalletConfig
a_safe = record {
  chain_id = pos 137;
  signature_type = pos 2;
  clob_host = "";
  gamma_host = "";
  data_api_host = "";
  polygon_rpc = "";
}

abbrev no_builder : Secrets
no_builder = record {
  pk = "k";
  browser_address = "b";
  polygon_rpc = none;
  alert_webhook_url = none;
  builder_key = none;
  builder_secret = none;
  builder_passphrase = none;
  relayer_url = "";
}

abbrev bytes_of : ℕ → List ℕ
bytes_of zero = []
bytes_of (suc n) = 27 ∷ bytes_of n

abbrev a_chain : Chain
a_chain = record {
  send_eoa = λ call. none;
  sign = some (bytes_of 65);
  send_safe = λ call packed. some ("0xhash", pos 1);
  send_deposit = λ call. none;
}

merge-SentBy_example :
    (leb_ℤ (pos 8_000_000) (pos 0) ≡ false)
    × (can_merge a_safe no_builder ≡ true)
    × ((call : MergeCall) × (inner_merge_call "0xA1f" (pos 8_000_000) false ≡ some call)
        × SentBy a_safe a_chain call "0xhash")
unfolding merge
merge-SentBy_example =
    merge-SentBy a_safe no_builder a_chain "0xA1f" (pos 8_000_000) false "0xhash" refl
