-- ===== src/Merger.antt =====
-- merge.py: the merge of YES and NO into collateral, by the kind of wallet. What the chain and the
-- relayer answer are arguments; `none` is a call that raised.
pub mod Hex
pub mod Paths
use poly_maker.Prelude.{
  ℕ, zero, suc, ◌+◌, ◌-◌, ◌*◌, Bool, true, false, not, ◌&&◌, ◌||◌, Option, none, some, List, [],
  ◌∷◌, ◌++◌, String, if◌then◌else◌, leb, ltb, length, take, drop, ◌>>=◌,
}
use poly_maker.Prelude.Int.{ℤ, pos, leb_ℤ}
use poly_maker.Prelude.Eq.{◌==◌, nat_eq}
use poly_maker.Text.{codes}
use poly_maker.Config.{WalletConfig, Secrets, has_builder_creds}

-- `hex_str[2:] if hex_str.startswith("0x") else hex_str`
abbrev pub strip_0x : List ℕ → List ℕ
strip_0x (a ∷ b ∷ s) = if (a == b'0') && (b == b'x') then s else a ∷ b ∷ s
strip_0x s = s

abbrev zeros : ℕ → List ℕ
zeros zero = []
zeros (suc n) = b'0' ∷ zeros n

-- `s.rjust(width, "0")`
abbrev pub rjust : ℕ → List ℕ → List ℕ
rjust width s = zeros (width - length s) ++ s

-- The value of a hexadecimal digit
abbrev pub hex_digit : ℕ → Option ℕ
hex_digit c =
    if leb b'0' c && leb c b'9'
    then some (c - b'0')
    else if leb b'a' c && leb c b'f'
    then some (c - b'a' + 10)
    else if leb b'A' c && leb c b'F'
    then some (c - b'A' + 10)
    else none

-- `bytes.fromhex(s)` of a text without blanks; `none` is a `ValueError`.
unfoldable pub from_hex : List ℕ → Option (List ℕ)
from_hex [] = some []
from_hex (a ∷ []) = none
from_hex (a ∷ b ∷ s) = do
  high ← hex_digit a
  low ← hex_digit b
  rest ← from_hex s
  some ((high * 16 + low) ∷ rest)

-- `_to_bytes32`
unfoldable pub to_bytes32 : List ℕ → Option (List ℕ)
unfolding from_hex
to_bytes32 s = from_hex (rjust 64 (strip_0x s))

abbrev conditional_tokens : String
conditional_tokens = "0x4D97DCd97eC945f40cF65F87097ACe5EA0476045"

abbrev neg_risk_adapter : String
neg_risk_adapter = "0xd91E80cF2E7be2e162c6513ceD06f1dD0dA35296"

abbrev usdc_collateral : String
usdc_collateral = "0x2791Bca1f2de4661ED88A30C99A7a9449Aa84174"

-- The contract and the arguments of `mergePositions`
pub data MergeCall : Type 0 where
  adapter_merge : String → List ℕ → ℤ → MergeCall
  ctf_merge : String → String → List ℕ → List ℕ → List ℕ → ℤ → MergeCall

abbrev zero_bytes : ℕ → List ℕ
zero_bytes zero = []
zero_bytes (suc n) = 0 ∷ zero_bytes n

-- `_inner_merge_call`, before the encoding; `none` where the condition id is no hexadecimal number.
unfoldable pub inner_merge_call : String → ℤ → Bool → Option MergeCall
unfolding to_bytes32
inner_merge_call condition_id amount_raw neg_risk = do
  cond ← to_bytes32 (codes condition_id)
  some (
      if neg_risk
      then adapter_merge neg_risk_adapter cond amount_raw
      else ctf_merge conditional_tokens usdc_collateral (zero_bytes 32) cond (1 ∷ 2 ∷ [])
          amount_raw)

-- `raw[:64] + bytes([raw[64] + 4])`: a Safe's eth_sign signature
unfoldable pub safe_signature : List ℕ → Option (List ℕ)
safe_signature raw = elim (drop 64 raw) [
  | [] ↦ none
  | v ∷ rest ↦ if ltb (v + 4) 256 then some (take 64 raw ++ (v + 4) ∷ []) else none
]

-- A transaction's receipt: its hash and its status
abbrev Receipt : Type 0
Receipt = String × ℤ

-- The three ways to send a merge, each with what becomes of the call
pub record Chain : Type 0 where
  pub send_eoa : MergeCall → Option Receipt
  pub sign : Option (List ℕ)
  pub send_safe : MergeCall → List ℕ → Option Receipt
  pub send_deposit : MergeCall → Option Receipt

abbrev is_one : ℤ → Bool
is_one (pos n) = n == 1
is_one _ = false

abbrev pub is_type : ℕ → WalletConfig → Bool
is_type n wallet = elim wallet.signature_type [ pos k ↦ k == n | _ ↦ false ]

-- `if status != 1: raise`
abbrev pub settled : Receipt → Option String
settled (h, status) = if is_one status then some h else none

abbrev pub can_merge : WalletConfig → Secrets → Bool
can_merge wallet sec = is_type 0 wallet || (is_type 2 wallet || has_builder_creds sec)

-- `_merge_eoa`: the status of the receipt is not looked at.
unfoldable pub merge_eoa : Chain → MergeCall → Option String
merge_eoa chain call = do receipt ← chain.send_eoa call; some receipt.0

-- `_merge_safe`
unfoldable pub merge_safe : Chain → MergeCall → Option String
unfolding safe_signature
merge_safe chain call = do
  raw ← chain.sign
  packed ← safe_signature raw
  receipt ← chain.send_safe call packed
  settled receipt

-- `_merge_deposit_wallet`
unfoldable pub merge_deposit_wallet : Chain → MergeCall → Option String
merge_deposit_wallet chain call = do receipt ← chain.send_deposit call; settled receipt

-- `merge`: the hash, or `none`
unfoldable pub merge : WalletConfig → Secrets → Chain → String → ℤ → Bool → Option String
unfolding inner_merge_call merge_eoa merge_safe merge_deposit_wallet
merge wallet sec chain condition_id amount_raw neg_risk =
    let call = inner_merge_call condition_id amount_raw neg_risk in
    if leb_ℤ amount_raw (pos 0) || not (can_merge wallet sec)
    then none
    else if is_type 0 wallet
    then (call >>= merge_eoa chain)
    else if is_type 2 wallet
    then (call >>= merge_safe chain)
    else (call >>= merge_deposit_wallet chain)
