-- ===== src/Cli/Config/Edits/Names.antt =====
-- The names of the connectors stay distinct over every command.
use edgeclaw.Prelude.{
  String, Option, ◌≡◌, refl, sym, ap₂, ◌∙◌, subst, Bool, true, false, not, ◌&&◌, ◌||◌, List, [],
  ◌∷◌, ◌++◌, any, retain, length, str_eq, eq_iff, ◌==◌, arith, Bool-cases, inl, inr,
}
use edgeclaw.Types.{Result, ok, err}
use edgeclaw.Cli.Config.{EdgeclawConfig, ModelConfig, ApprovalMode, ConnectorConfig, connector_name}
use edgeclaw.Cli.Config.File.{Fs, Toml, load_config, run_change}
use edgeclaw.Cli.Config.File.Atomic.{Documented, Changed, run_change-Changed}
use edgeclaw.Cli.Config.Edits.{
  Change, set_model, put_personality, set_personality, identity_of, set_approval, enable_tool,
  disable_tool, is_named, add_connector, remove_connector,
}

-- The commands that change the configuration.
pub data Command : Type 0 where
  model : ModelConfig → Command
  personality : (name : String) → (identity identity_file : Option String) → Command
  approval : ApprovalMode → Command
  enable disable : (tool : String) → Command
  add : ConnectorConfig → Command
  remove : (name : String) → Command

unfoldable pub apply : (String → Result String String) → Command → Change
unfolding set_model set_personality set_approval enable_tool disable_tool add_connector
    remove_connector
apply read (model opts) = set_model opts
apply read (personality name text file) = set_personality read name text file
apply read (approval mode) = set_approval mode
apply read (enable tool) = enable_tool tool
apply read (disable tool) = disable_tool tool
apply read (add c) = add_connector c
apply read (remove name) = remove_connector name

unfoldable pub distinct_names : List ConnectorConfig → Bool
distinct_names [] = true
distinct_names (c ∷ cs) = not (any (is_named (connector_name c)) cs) && distinct_names cs

any-append :
    (p : ConnectorConfig → Bool) (xs ys : List ConnectorConfig)
    → any p (xs ++ ys) ≡ any p xs || any p ys
any-append p [] ys = refl
any-append p (x ∷ xs) ys = ground (arith, any-append p xs ys)

any-retain :
    (p q : ConnectorConfig → Bool) (xs : List ConnectorConfig)
    → any p xs ≡ false
    → any p (retain q xs) ≡ false
any-retain p q [] h = refl
any-retain p q (x ∷ xs) h = ground (arith, any-retain p q xs)

-- A name differs from another as the other from it.
differs : (a b : String) → str_eq a b ≡ false → str_eq b a ≡ false
differs a b h = ground (arith, eq_iff a b, eq_iff b a)

first : (a b : Bool) → not a && b ≡ true → a ≡ false
first false b h = refl
first true b h = sym h

second : (a b : Bool) → not a && b ≡ true → b ≡ true
second false b h = h
second true false h = h
second true true h = refl

left : (a b : Bool) → a || b ≡ false → a ≡ false
left false b h = refl
left true b h = h

right : (a b : Bool) → a || b ≡ false → b ≡ false
right false b h = h
right true false h = refl
right true true h = h

any_other :
    (name : String) (xs : List ConnectorConfig) (c : ConnectorConfig)
    → any (is_named name) xs ≡ false
    → str_eq (connector_name c) name ≡ false
    → any (is_named name) (xs ++ c ∷ []) ≡ false
any_other name xs c h n =
    any-append (is_named name) xs (c ∷ []) ∙ ap₂ (λ a b. a || (b || false)) h n

distinct-append :
    (xs : List ConnectorConfig) (c : ConnectorConfig)
    → distinct_names xs ≡ true
    → any (is_named (connector_name c)) xs ≡ false
    → distinct_names (xs ++ c ∷ []) ≡ true
unfolding distinct_names
distinct-append [] c d h = refl
distinct-append (x ∷ xs) c d h =
    let later =
      distinct-append xs c (second (any (is_named (connector_name x)) xs) (distinct_names xs) d)
        (right (is_named (connector_name c) x) (any (is_named (connector_name c)) xs) h) in
    let new =
      any_other (connector_name x) xs c
        (first (any (is_named (connector_name x)) xs) (distinct_names xs) d)
        (differs (connector_name x) (connector_name c)
          (left (is_named (connector_name c) x) (any (is_named (connector_name c)) xs) h)) in
    ap₂ (λ a b. not a && b) new later

distinct-retain :
    (q : ConnectorConfig → Bool) (xs : List ConnectorConfig)
    → distinct_names xs ≡ true
    → distinct_names (retain q xs) ≡ true
unfolding distinct_names
distinct-retain q [] d = refl
distinct-retain q (x ∷ xs) d =
    ground (arith, distinct-retain q xs, any-retain (is_named (connector_name x)) q xs)

-- The configuration that a command leaves has distinct names of connectors.
abbrev pub Distinct : Result (EdgeclawConfig × String) String → Type 0
Distinct (err e) = Unit {0}
Distinct (ok (config, printed)) = distinct_names config.connectors ≡ true

put_personality-Distinct :
    (name identity : String) (config : EdgeclawConfig)
    → distinct_names config.connectors ≡ true
    → Distinct (ok (put_personality name identity config))
unfolding put_personality
put_personality-Distinct name identity config d =
    elim (Bool-cases (any (λ p. str_eq p.name name) config.personalities)) [
      | inl e ↦ rw e d
      | inr e ↦ rw e d
    ]

set_personality-Distinct :
    (name : String) (config : EdgeclawConfig) (r : Result String String)
    → distinct_names config.connectors ≡ true
    → Distinct (elim r [ err e ↦ err e | ok identity ↦ ok (put_personality name identity config) ])
set_personality-Distinct name config (err e) d = tt
set_personality-Distinct name config (ok identity) d =
    put_personality-Distinct name identity config d

enable_tool-Distinct :
    (tool : String) (config : EdgeclawConfig)
    → distinct_names config.connectors ≡ true
    → Distinct (enable_tool tool config)
unfolding enable_tool
enable_tool-Distinct tool config d =
    elim (Bool-cases (any (λ t. str_eq t tool) config.tools.enabled)) [
      | inl e ↦ rw e d
      | inr e ↦ rw e d
    ]

add_connector-Distinct :
    (c : ConnectorConfig) (config : EdgeclawConfig)
    → distinct_names config.connectors ≡ true
    → Distinct (add_connector c config)
unfolding add_connector
add_connector-Distinct c config d =
    elim (Bool-cases (any (is_named (connector_name c)) config.connectors)) [
      | inl e ↦ rw e tt
      | inr e ↦ rw e (distinct-append config.connectors c d e)
    ]

remove_connector-Distinct :
    (name : String) (config : EdgeclawConfig)
    → distinct_names config.connectors ≡ true
    → Distinct (remove_connector name config)
unfolding remove_connector
remove_connector-Distinct name config d =
    let kept = retain (λ c. not (is_named name c)) config.connectors in
    elim (Bool-cases (length kept == length config.connectors)) [
      | inl e ↦ rw e tt
      | inr e ↦ rw e (distinct-retain (λ c. not (is_named name c)) config.connectors d)
    ]

apply-Distinct :
    (read : String → Result String String) (command : Command) (config : EdgeclawConfig)
    → distinct_names config.connectors ≡ true
    → Distinct (apply read command config)
unfolding apply
apply-Distinct read (model opts) config d = unfold set_model in d
apply-Distinct read (personality name text file) config d =
    unfold set_personality in set_personality-Distinct name config (identity_of read text file) d
apply-Distinct read (approval mode) config d = unfold set_approval in d
apply-Distinct read (enable tool) config d = enable_tool-Distinct tool config d
apply-Distinct read (disable tool) config d = unfold disable_tool in d
apply-Distinct read (add c) config d = add_connector-Distinct c config d
apply-Distinct read (remove name) config d = remove_connector-Distinct name config d

module _ {W : Type 0} (fs : Fs W) (toml : Toml) (path : String) where
  -- The commands, each on the file that the one before it left.
  unfoldable pub run_commands : List Command → W → W
  unfolding run_change apply
  run_commands [] w = w
  run_commands (command ∷ commands) w =
      run_commands commands
        (run_change fs toml path (apply (λ file. fs.read_to_string file w) command) w).1

  -- What is loaded has distinct names, or nothing can be loaded.
  abbrev pub FileDistinct : Result EdgeclawConfig String → Type 0
  FileDistinct (err e) = Unit {0}
  FileDistinct (ok config) = distinct_names config.connectors ≡ true

  Changed-Distinct :
      (read : String → Result String String) (command : Command) (w : W)
      (x : Result String String × W)
      → FileDistinct (load_config fs toml path w)
      → Changed fs toml path (apply read command) w x
      → FileDistinct (load_config fs toml path x.1)
  Changed-Distinct read command w (err e, w') f c = subst FileDistinct (sym c) f
  Changed-Distinct read command w (ok printed, w') f (before, config, l, a, l') =
      subst FileDistinct (sym l')
        (subst Distinct a (apply-Distinct read command before (subst FileDistinct l f)))

  -- The names of the connectors in the file stay distinct over any sequence of commands that set, add and remove, whichever of
  -- them fail and at whatever step, where std::fs and toml do as they document.
  pub run_commands-Distinct :
      Documented fs toml path
      → (commands : List Command) (w : W) → FileDistinct (load_config fs toml path w)
      → FileDistinct (load_config fs toml path (run_commands commands w))
  unfolding run_commands
  run_commands-Distinct d [] w f = f
  run_commands-Distinct d (command ∷ commands) w f =
      let read = λ (file : String). fs.read_to_string file w in
      let x = run_change fs toml path (apply read command) w in
      run_commands-Distinct d commands x.1 (
        Changed-Distinct read command w x f
          (run_change-Changed fs toml path d (apply read command) w))
