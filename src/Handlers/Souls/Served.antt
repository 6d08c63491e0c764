-- ===== src/Handlers/Souls/Served.antt =====
-- A soul that the model generates is shown, and used by the turns of its user.
use edgeclaw.Prelude.{String, ◌≡◌, refl}
use edgeclaw.Prelude.Int.{ℤ}
use edgeclaw.Json.{Value}
use edgeclaw.Types.{Result, ok, err, AgentError}
use edgeclaw.Host.{Host, LlmResponse}
use edgeclaw.Turn.{World, ServerConfig}
use edgeclaw.Handlers.Souls.{GenerateSoulRequest}
use edgeclaw.Handlers.Souls.Generate.{soul_of_json, store_generated, after_answer, generate_soul}
use edgeclaw.Soul.{Soul}
use edgeclaw.Database.{load_soul}
use edgeclaw.Handlers.{Reply}
use edgeclaw.Handlers.Souls.{soul_to_json, get_soul, replace_soul}
use edgeclaw.Handlers.Souls.Laws.{Shown, replaced-Shown}

-- The part of it for the user.
abbrev pub Served : {O : Type 0} → String → Reply × World O → Type 0
Served user_id (err e, w) = Unit {0}
Served user_id (ok v, w) =
    (soul : Soul) × (v ≡ soul_to_json soul)
    × (load_soul user_id w.db ≡ soul)
    × (get_soul user_id w.db ≡ ok v)

module _ {O : Type 0} (host : Host (World O)) (clock : World O → ℤ)
    (from_json : String → Result Value String) (config : ServerConfig)
    (body : GenerateSoulRequest) where
  store_generated-Served :
      (v : Result Value String) (w : World O)
      → Served body.user_id (store_generated host clock from_json config body v w)
  unfolding store_generated
  store_generated-Served (err e) w = tt
  store_generated-Served (ok v) w =
      let (soul, e, l, g, others) = replace_shown (soul_of_json v) w in (soul, e, l, g)
    where
      replace_shown :
          (soul : Soul) (w : World O)
          → Shown body.user_id w.db
              (ok (soul_to_json soul), replace_soul body.user_id soul (clock w) w.db)
      replace_shown soul w = replaced-Shown body.user_id soul (clock w) w.db w.db refl

  after_answer-Served :
      (x : Result LlmResponse AgentError × World O)
      → Served body.user_id (after_answer host clock from_json config body x)
  unfolding after_answer
  after_answer-Served (err e, w) = tt
  after_answer-Served (ok result, w) = store_generated-Served _ w

  -- Whatever the model answers, a soul that is generated and replied is the one that is shown to the user and that the
  -- user's turns use from then on.
  pub generate_soul-Served :
      (w : World O) → Served body.user_id (generate_soul host clock from_json config body w)
  unfolding generate_soul
  generate_soul-Served w = after_answer-Served _
