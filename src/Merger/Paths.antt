-- ===== src/Merger/Paths.antt =====
-- merge.py: when a merge reports a hash.
use poly_maker.Prelude.{
  ℕ, ◌≡◌, refl, ap, ◌∙◌, Bool, true, false, not, ◌||◌, Option, none, some, List, String, arith,
  ◌>>=◌, Bool-cases, inl, inr,
}
use poly_maker.Prelude.Int.{ℤ, pos, negsuc, leb_ℤ}
use poly_maker.Config.{WalletConfig, Secrets}
use poly_maker.Merger.{
  MergeCall, Chain, is_type, settled, can_merge, inner_merge_call, safe_signature, merge_eoa,
  merge_safe, merge_deposit_wallet, merge,
}

-- A call that the chain or the relayer took, of the kind of the wallet, and the receipt's hash. For a
-- Safe and a deposit wallet the receipt reports success; for a plain account it may be any.
pub data SentBy (wallet : WalletConfig) (chain : Chain) (call : MergeCall) (h : String)
    : Type 0 where
  by_eoa :
      {status : ℤ}
      → is_type 0 wallet ≡ true
      → chain.send_eoa call ≡ some (h, status)
      → SentBy wallet chain call h
  by_safe :
      {packed : List ℕ}
      → is_type 2 wallet ≡ true
      → chain.send_safe call packed ≡ some (h, pos 1)
      → SentBy wallet chain call h
  by_relayer :
      is_type 0 wallet ≡ false
      → is_type 2 wallet ≡ false
      → chain.send_deposit call ≡ some (h, pos 1)
      → SentBy wallet chain call h

>>=-eq-some {ℓ κ} :
    {A : Type ℓ} {B : Type κ} (m : Option A) (k : A → Option B) {b : B}
    → (m >>= k) ≡ some b
    → (a : A) × (m ≡ some a) × (k a ≡ some b)
>>=-eq-some none k h = cc h
>>=-eq-some (some a) k h = (a, refl, h)

settled-eq-some :
    (receipt : String × ℤ) (h : String) → settled receipt ≡ some h → receipt ≡ (h, pos 1)
settled-eq-some (h', pos n) h e = ground arith
settled-eq-some (h', negsuc n) h e = cc e

module _ (wallet : WalletConfig) (sec : Secrets) (chain : Chain) where
  merge_eoa-SentBy :
      (call : MergeCall) (h : String)
      → is_type 0 wallet ≡ true
      → merge_eoa chain call ≡ some h
      → SentBy wallet chain call h
  unfolding merge_eoa
  merge_eoa-SentBy call h t e =
      let (receipt, sent, same) = >>=-eq-some (chain.send_eoa call) _ e in
      by_eoa {status = receipt.1} t (sent ∙ ap some (ground arith))

  merge_safe-SentBy :
      (call : MergeCall) (h : String)
      → is_type 2 wallet ≡ true
      → merge_safe chain call ≡ some h
      → SentBy wallet chain call h
  unfolding merge_safe
  merge_safe-SentBy call h t e =
      let (raw, signed, e') = >>=-eq-some chain.sign _ e in
      let (packed, ok, e'') = >>=-eq-some (safe_signature raw) _ e' in
      let (receipt, sent, done_with) = >>=-eq-some (chain.send_safe call packed) _ e'' in
      by_safe t (sent ∙ ap some (settled-eq-some receipt h done_with))

  merge_deposit_wallet-SentBy :
      (call : MergeCall) (h : String)
      → is_type 0 wallet ≡ false
      → is_type 2 wallet ≡ false
      → merge_deposit_wallet chain call ≡ some h
      → SentBy wallet chain call h
  unfolding merge_deposit_wallet
  merge_deposit_wallet-SentBy call h t u e =
      let (receipt, sent, done_with) = >>=-eq-some (chain.send_deposit call) _ e in
      by_relayer t u (sent ∙ ap some (settled-eq-some receipt h done_with))

  -- `merge` reports a hash only for a positive amount and a wallet that can merge: it is the hash of
  -- the receipt of this very call, sent the way of the wallet, and for a Safe or a deposit wallet the
  -- receipt says that the transaction succeeded.
  pub merge-SentBy :
      (condition_id : String) (amount_raw : ℤ) (neg_risk : Bool) (h : String)
      → merge wallet sec chain condition_id amount_raw neg_risk ≡ some h
      → (leb_ℤ amount_raw (pos 0) ≡ false)
        × (can_merge wallet sec ≡ true)
        × ((call : MergeCall) × (inner_merge_call condition_id amount_raw neg_risk ≡ some call)
            × SentBy wallet chain call h)
  unfolding merge
  merge-SentBy condition_id amount_raw neg_risk h e =
      let amount : Bool = leb_ℤ amount_raw (pos 0) in
      let call = inner_merge_call condition_id amount_raw neg_risk in
      elim (Bool-cases (amount || not (can_merge wallet sec))) [
        | inl refused ↦ cc (rw refused at e)
        | inr allowed ↦
            let sent : (c : MergeCall) × (call ≡ some c) × SentBy wallet chain c h =
              elim (Bool-cases (is_type 0 wallet)) [
                | inl eoa ↦
                    let (c, built, m) = >>=-eq-some call _ (rw (allowed, eoa) at e) in
                    (c, built, merge_eoa-SentBy c h eoa m)
                | inr other ↦ elim (Bool-cases (is_type 2 wallet)) [
                  | inl safe ↦
                      let (c, built, m) = >>=-eq-some call _ (rw (allowed, other, safe) at e) in
                      (c, built, merge_safe-SentBy c h safe m)
                  | inr deposit ↦
                      let (c, built, m) = >>=-eq-some call _ (rw (allowed, other, deposit) at e) in
                      (c, built, merge_deposit_wallet-SentBy c h other deposit m)
                ]
              ] in
            (ground arith, ground arith, sent)
      ]
