-- ===== src/Engine/Run.antt =====
-- engine.py: the runs of the engine. Its tasks take turns, so a run is any sequence of their steps, each
-- with what the clock, the feeds and the exchange give it. A requote is one step, as its lock and the
-- answers among its arguments make it.
pub mod Switch
pub mod Killed
pub mod Wiring
pub mod Wired
use poly_maker.Prelude.{Bool, Option, List, [], ◌++◌, String}
use poly_maker.Prelude.Int.{ℤ}
use poly_maker.Float.{Float}
use poly_maker.Dict.{Dict}
use poly_maker.SortedDict.{SortedDict}
use poly_maker.Domain.{Side, Fill, OpenOrder, MarketMeta}
use poly_maker.Book.{OrderBook}
use poly_maker.State.Store.{StateStore}
use poly_maker.Risk.{kill, reset_day}
use poly_maker.Engine.{Engine, Settings, Links, on_trade, on_fill}
use poly_maker.Engine.Requests.{Request, Answers, recompute}
use poly_maker.Engine.Upkeep.{heartbeat_step, reconcile_round, check_divergence}
use poly_maker.Engine.Refresh.{MetaReport, refresh_book}
use poly_maker.Engine.Metadata.{apply_reports}
use poly_maker.Engine.Merges.{merge_task}

module _ {W D : Type 0} ⦃f : Float W⦄ ⦃d : SortedDict W D⦄ (cfg : Settings W)
    (timestamp : String → Option W) where
  -- A step, with what it asks of the gateway. `feeds` is what the sockets write: books and the store.
  pub data EngineStep (e : Engine W D) : List (Request W) → Engine W D → Type 0 where
    requotes :
        (links : Links W) (answers : Answers W) (now : W) (cid : String)
        → EngineStep e
            (recompute cfg timestamp links answers now cid e).0
            (recompute cfg timestamp links answers now cid e).1
    trades :
        (aggressor : Side) (asset : String) (price size ts : W)
        → EngineStep e [] (on_trade aggressor asset price size ts e)
    fills : (fill : Fill W) → EngineStep e [] (on_fill fill e)
    feeds :
        (state : StateStore W) (books : Dict String (OrderBook W D))
        → EngineStep e [] (record e { state = state; books = books })
    beats :
        (now : W) (ok : Bool) (failures : ℤ) (reported : String → Option (List (OpenOrder W)))
        → EngineStep e [] (heartbeat_step cfg now ok failures reported e)
    reconciles :
        (now : W) (positions : Option (Dict String (W × W))) (live : Option (List (OpenOrder W)))
        → EngineStep e [] (reconcile_round cfg now positions live e)
    corrects :
        (balances : List String → Option (Dict String W)) (asked_at : Engine W D)
        → EngineStep e [] (check_divergence balances asked_at e)
    refreshes :
        (reports : Dict String (MetaReport W))
        → EngineStep e (apply_reports reports e).0 (apply_reports reports e).1
    rereads :
        (now : W) (t : String) (rest : Option (List (W × W) × List (W × W) × Option String))
        → EngineStep e [] (refresh_book now t rest e)
    merged :
        (cid : String) (meta : MarketMeta W) (asked : W) (bals : Option (Dict String W))
        → EngineStep e [] (merge_task cid meta asked bals e).1
    resets : EngineStep e [] (record e { risk = reset_day e.state e.risk })
    kills : EngineStep e [] (record e { risk = kill e.risk })

  -- A run, with all that was asked of the gateway, in order
  pub data EngineRun (e : Engine W D) : List (Request W) → Engine W D → Type 0 where
    starts : EngineRun e [] e
    steps :
        {asked more : List (Request W)} {e' e'' : Engine W D}
        → EngineRun e asked e'
        → EngineStep e' more e''
        → EngineRun e (asked ++ more) e''
