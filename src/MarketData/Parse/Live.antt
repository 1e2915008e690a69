-- ===== src/MarketData/Parse/Live.antt =====
-- marketdata/service.py: the books stay free of empty levels whatever text the socket delivers.
use poly_maker.Prelude.{Option, none, some, List, [], ◌∷◌, All, Option-cases, inl, inr}
use poly_maker.Float.{Float}
use poly_maker.Float.Laws.{IsOrdered}
use poly_maker.SortedDict.{SortedDict, IsSortedDict}
use poly_maker.Dict.{values}
use poly_maker.Json.{Json, null, truth, number, text, array, object, Wire}
use poly_maker.Book.Levels.{IsLive}
use poly_maker.MarketData.{MarketData, dispatch}
use poly_maker.MarketData.Frames.{dispatch-AllLive}
use poly_maker.MarketData.Parse.{frame_of, messages_of, handle_messages, handle}

module _ {W D : Type 0} ⦃f : Float W⦄ ⦃w : Wire W⦄ ⦃d : SortedDict W D⦄ where
  -- The texts that the socket delivers, each with the time it is handled at
  abbrev pub run_socket : List (W × Option (Json W)) → MarketData W D → MarketData W D
  run_socket [] s = s
  run_socket ((now, raw) ∷ raws) s = run_socket raws (handle now raw s).2

  module _ (o : IsOrdered W) (sd : IsSortedDict W D) where
    handle_messages-AllLive :
        (now : W) (msgs : List (Json W)) (s : MarketData W D)
        → All IsLive (values s.books)
        → All IsLive (values (handle_messages now msgs s).2.books)
    unfolding handle_messages
    handle_messages-AllLive now [] s a = a
    handle_messages-AllLive now (object msg ∷ msgs) s a = elim (Option-cases (frame_of msg)) [
      | inl raised ↦ rw (raised, handle_messages) a
      | inr (fr, parsed) ↦
          rw (parsed, handle_messages)
            (handle_messages-AllLive now msgs (dispatch now fr s).1
              (dispatch-AllLive o sd now fr s a))
    ]
    handle_messages-AllLive now (null ∷ msgs) s a = handle_messages-AllLive now msgs s a
    handle_messages-AllLive now (truth b ∷ msgs) s a = handle_messages-AllLive now msgs s a
    handle_messages-AllLive now (number x ∷ msgs) s a = handle_messages-AllLive now msgs s a
    handle_messages-AllLive now (text t ∷ msgs) s a = handle_messages-AllLive now msgs s a
    handle_messages-AllLive now (array xs ∷ msgs) s a = handle_messages-AllLive now msgs s a

    handle-AllLive :
        (now : W) (raw : Option (Json W)) (s : MarketData W D)
        → All IsLive (values s.books)
        → All IsLive (values (handle now raw s).2.books)
    unfolding handle
    handle-AllLive now none s a = a
    handle-AllLive now (some v) s a = handle_messages-AllLive now (messages_of v) s a

    -- Whatever texts the socket delivers, JSON or not, well-formed messages or not, and wherever a
    -- parser raises: if no book has an empty level at the start, none has one at the end.
    pub run_socket-AllLive :
        (raws : List (W × Option (Json W))) (s : MarketData W D)
        → All IsLive (values s.books)
        → All IsLive (values (run_socket raws s).books)
    run_socket-AllLive [] s a = a
    run_socket-AllLive ((now, raw) ∷ raws) s a =
        run_socket-AllLive raws (handle now raw s).2 (handle-AllLive now raw s a)
