-- ===== src/Tests/Books.antt =====
-- The order book's theorems on a small book.
use poly_maker.Prelude.{◌≡◌, refl, true, none, [], ◌∷◌, is_some}
use poly_maker.Float.{num}
use poly_maker.Float.Fixed.{Fixed, fixed_float, Fixed-IsOrdered, Fixed-IsMonotone}
use poly_maker.SortedDict.{value_at}
use poly_maker.SortedDict.Assoc.{sorted, assoc_dict, Assoc-IsSortedDict}
use poly_maker.Domain.{buy}
use poly_maker.Book.{BookLevel, best_bid, best_ask, apply_delta, view}
use poly_maker.Book.Levels.{IsLive, apply_delta_levels}
use poly_maker.Book.Touch.{view_depth_is_touch}
use poly_maker.Execution.RateLimit.{TokenBucket, acquire}
use poly_maker.Execution.RateLimit.Returns.{acquire_returns}
use poly_maker.Execution.RateLimit.Bounds.{acquire_beyond_capacity}
use poly_maker.Tests.{cents, whole, a_book}

apply_delta_levels_example :
    (value_at
        (cents 48)
        (sorted (apply_delta (whole 5) buy (cents 48) (whole 0) (whole 6) a_book).bids)
      ≡ none)
    × (value_at
          (cents 48)
          (sorted (apply_delta (whole 5) buy (cents 48) (whole 0) (whole 6) a_book).asks)
        ≡ none)
apply_delta_levels_example =
    apply_delta_levels Fixed-IsOrdered (Assoc-IsSortedDict Fixed-IsOrdered) (whole 5) buy (cents 48)
      (whole 0) (whole 6) (cents 48) a_book

a_book-IsLive : IsLive a_book
a_book-IsLive = record { bids_live = (refl, (refl, tt)); asks_live = (refl, (refl, tt)) }

abbrev top_bid : BookLevel Fixed
top_bid = record { price = cents 48; size = whole 10 }

abbrev top_ask : BookLevel Fixed
top_ask = record { price = cents 52; size = whole 15 }

view_depth_is_touch_example :
    ((view a_book (cents 5) (num 0)).bid_depth ≡ whole 10)
    × ((view a_book (cents 5) (num 0)).ask_depth ≡ whole 15)
unfolding best_bid best_ask
view_depth_is_touch_example =
    view_depth_is_touch Fixed-IsOrdered (Assoc-IsSortedDict Fixed-IsOrdered) a_book (cents 5)
      top_bid top_ask a_book-IsLive refl refl refl refl

-- Ten tokens a second, at most twenty, of which three are left at time 1
abbrev a_bucket : TokenBucket Fixed
a_bucket = record { rate = whole 10; capacity = whole 20; tokens = whole 3; last = whole 1 }

acquire_beyond_capacity_example : acquire (whole 2 ∷ whole 100 ∷ []) (whole 21) a_bucket ≡ none
acquire_beyond_capacity_example =
    acquire_beyond_capacity Fixed-IsOrdered (whole 2 ∷ whole 100 ∷ []) (whole 21) a_bucket refl

-- The sleep between the two readings earns the five tokens.
acquire_returns_example :
    is_some (acquire (whole 1 ∷ whole 2 ∷ []) (whole 15) (record a_bucket { rate = whole 20 }))
    ≡ true
acquire_returns_example =
    acquire_returns Fixed-IsOrdered Fixed-IsMonotone [] [] (whole 1) (whole 2) (whole 15)
      (record a_bucket { rate = whole 20 }) (refl, refl, refl) (refl, (refl, tt)) refl refl
