-- ===== src/Catalog/Gamma/Pages.antt =====
-- catalog/gamma.py: the pages together are the list of the server.
use poly_maker.Prelude.{
  ℕ, zero, suc, ◌+◌, ◌*◌, ◌<◌, ◌≤◌, ◌≡◌, ◌⊎◌, refl, sym, ap, ◌∙◌, true, List, [], ◌∷◌, ◌++◌, length,
  take, drop, ltb, arith, inl, inr, Bool-cases,
}
use poly_maker.Catalog.Gamma.{Page, past_end, lists, after_page, iter_pages, iter_markets}

-- A server that keeps one list while it is read: a page is the markets from the offset on, at most
-- `limit` of them, and past the end there is a status 400 or 422, or an empty page.
abbrev pub Serves : {A : Type 0} → List A → ℕ → (ℕ → Page A) → Type 0
Serves all limit answer =
    (offset : ℕ)
    → ((offset < length all) × (answer offset ≡ lists (take limit (drop offset all))))
      ⊎ ((length all ≤ offset) × ((answer offset ≡ past_end) ⊎ (answer offset ≡ lists [])))

module _ {A : Type 0} where
  take-drop_nil : (n k : ℕ) (xs : List A) → length xs ≤ k → take n (drop k xs) ≡ []
  take-drop_nil zero k xs h = refl
  take-drop_nil (suc n) zero [] h = refl
  take-drop_nil (suc n) zero (x ∷ xs) h = absurd (omega arith)
  take-drop_nil (suc n) (suc k) [] h = refl
  take-drop_nil (suc n) (suc k) (x ∷ xs) h = take-drop_nil (suc n) k xs (omega arith)

  take-nil : (n : ℕ) → take {A = A} n [] ≡ []
  take-nil zero = refl
  take-nil (suc n) = refl

  drop-nil : (n : ℕ) → drop {A = A} n [] ≡ []
  drop-nil zero = refl
  drop-nil (suc n) = refl

  drop-drop : (m n : ℕ) (xs : List A) → drop n (drop m xs) ≡ drop (m + n) xs
  drop-drop zero n xs = let e : 0 + n ≡ n = omega arith in rw e refl
  drop-drop (suc m) n [] = drop-nil n ∙ sym (drop-nil (suc m + n))
  drop-drop (suc m) n (x ∷ xs) =
      let e : suc m + n ≡ suc (m + n) = omega arith in rw e (drop-drop m n xs)

  take-append-drop : (m n : ℕ) (xs : List A) → take m xs ++ take n (drop m xs) ≡ take (m + n) xs
  take-append-drop zero n xs = let e : 0 + n ≡ n = omega arith in rw e refl
  take-append-drop (suc m) n [] = take-nil n ∙ sym (take-nil (suc m + n))
  take-append-drop (suc m) n (x ∷ xs) =
      let e : suc m + n ≡ suc (m + n) = omega arith in
      rw e (ap (λ ys. x ∷ ys) (take-append-drop m n xs))

  take_all : (n : ℕ) (xs : List A) → length xs ≤ n → take n xs ≡ xs
  take_all n [] h = take-nil n
  take_all zero (x ∷ xs) h = absurd (omega arith)
  take_all (suc n) (x ∷ xs) h = ap (λ ys. x ∷ ys) (take_all n xs (omega arith))

  length-lt_of_short : (n : ℕ) (xs : List A) → length (take n xs) < n → length xs < n
  length-lt_of_short zero xs h = absurd (omega arith)
  length-lt_of_short (suc n) [] h = omega arith
  length-lt_of_short (suc n) (x ∷ xs) h = omega (arith, length-lt_of_short n xs (omega arith))

  length-drop_pos : (k : ℕ) (xs : List A) → k < length xs → 0 < length (drop k xs)
  length-drop_pos zero xs h = omega arith
  length-drop_pos (suc k) [] h = absurd (omega arith)
  length-drop_pos (suc k) (x ∷ xs) h = length-drop_pos k xs (omega arith)

  -- A page and the rest of the list behind it
  after_page-take :
      (limit n : ℕ) (ys : List A)
      → 0 < limit
      → 0 < length ys
      → after_page limit (take limit ys) (take n (drop limit ys), true)
        ≡ (take (limit + n) ys, true)
  after_page-take zero n ys h k = absurd (omega arith)
  after_page-take (suc l) n [] h k = absurd (omega arith)
  after_page-take (suc l) n (y ∷ ys) h k =
      elim (Bool-cases (ltb (length (y ∷ take l ys)) (suc l))) [
        | inl short ↦
            let all_in : length ys < l = length-lt_of_short l ys (ground arith) in
            let e : suc l + n ≡ suc (l + n) = omega arith in
            rw (short, e)
              (ap (λ zs. (y ∷ zs, true))
                (take_all l ys (omega arith) ∙ sym (take_all (l + n) ys (omega arith))))
        | inr full ↦ rw full (ap (λ zs. (zs, true)) (take-append-drop (suc l) n (y ∷ ys)))
      ]

  iter_pages-take :
      (all : List A) (limit : ℕ) (answer : ℕ → Page A) (pages offset : ℕ)
      → 0 < limit
      → Serves all limit answer
      → iter_pages answer limit pages offset ≡ (take (pages * limit) (drop offset all), true)
  unfolding iter_pages
  iter_pages-take all limit answer zero offset h serves = ground arith
  iter_pages-take all limit answer (suc pages) offset h serves = elim (serves offset) [
    | inl (inside, e) ↦
        rw (e, iter_pages)
          (rw (iter_pages-take all limit answer pages (offset + limit) h serves) (
            rw (← drop-drop offset limit all) (
              after_page-take limit (pages * limit) (drop offset all) h
                (length-drop_pos offset all inside)
              ∙ ap (λ k. (take k (drop offset all), true)) (grind arith))))
    | inr (outside, inl e) ↦
        rw (e, iter_pages) (ap (λ zs. (zs, true)) (sym (take-drop_nil _ offset all outside)))
    | inr (outside, inr e) ↦
        rw (e, iter_pages) (ap (λ zs. (zs, true)) (sym (take-drop_nil _ offset all outside)))
  ]

  -- The pages put together are the first `max_pages * limit` markets of the server's list, in order,
  -- each once, and the loop ends without an exception, whether the last page is full, short or empty.
  pub iter_markets-eq-take :
      (all : List A) (limit max_pages : ℕ) (answer : ℕ → Page A)
      → 0 < limit
      → Serves all limit answer
      → iter_markets answer limit max_pages ≡ (take (max_pages * limit) all, true)
  unfolding iter_markets
  iter_markets-eq-take all limit max_pages answer h serves =
      iter_pages-take all limit answer max_pages 0 h serves
