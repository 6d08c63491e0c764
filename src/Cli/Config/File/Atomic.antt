-- ===== src/Cli/Config/File/Atomic.antt =====
-- A change of the configuration is saved as a whole, or not at all.
use edgeclaw.Prelude.{
  String, ◌≡◌, refl, sym, ap, ◌∙◌, subst, Option, none, some, Bool, true, false, str_eq,
}
use edgeclaw.Prelude.Text.{◌<>◌}
use edgeclaw.Types.{Result, ok, err, map_err}
use edgeclaw.Cli.Config.{EdgeclawConfig, default}
use edgeclaw.Cli.Config.File.{
  Fs, Toml, context, parse_config, load_config, tmp_path, rename_tmp, write_tmp, make_parent,
  save_in, save_config, changed, run_change,
}

module _ {W : Type 0} (fs : Fs W) (toml : Toml) (path : String) where
  -- What a reader of a path sees.
  abbrev pub seen : String → W → Bool × Result String String
  seen p w = (fs.is_file p w, fs.read_to_string p w)

  -- What std::fs documents of the files that a save does not write, of the one that it does, and of a rename, and that the toml
  -- crate reads what it wrote.
  pub record Documented : Type 0 where
    pub create_keeps : (dir p : String) (w : W) → seen p (fs.create_dir_all dir w).1 ≡ seen p w
    pub write_keeps :
        (target p content : String) (w : W)
        → str_eq target p ≡ false
        → seen p (fs.write target content w).1 ≡ seen p w
    pub write_ok :
        (target content : String) (w : W)
        → (fs.write target content w).0 ≡ ok tt
        → seen target (fs.write target content w).1 ≡ (true, ok content)
    pub rename_ok :
        (from to : String) (w : W)
        → (fs.rename from to w).0 ≡ ok tt
        → seen to (fs.rename from to w).1 ≡ seen from w
    pub rename_err :
        (from to e : String) (w : W)
        → (fs.rename from to w).0 ≡ err e
        → seen to (fs.rename from to w).1 ≡ seen to w
    pub reads_back :
        (c : EdgeclawConfig) (s : String) → toml.to_string_pretty c ≡ ok s → toml.from_str s ≡ ok c
    pub other_path : str_eq (tmp_path fs toml path) path ≡ false

  -- The configuration is by what is seen of its file.
  abbrev of_seen : Bool × Result String String → Result EdgeclawConfig String
  of_seen (b, r) = elim b [ false ↦ ok default | true ↦ parse_config fs toml path r ]

  load_config-seen : (w : W) → load_config fs toml path w ≡ of_seen (seen path w)
  unfolding load_config
  load_config-seen w = refl

  load_config-ok :
      (w : W) (content : String) (config : EdgeclawConfig)
      → seen path w ≡ (true, ok content)
      → toml.from_str content ≡ ok config
      → load_config fs toml path w ≡ ok config
  unfolding parse_config
  load_config-ok w content config e r =
      load_config-seen w ∙ ap of_seen e ∙ ap (context ("failed to parse config file: " <> path)) r

  -- Behind a change that fails the configuration is as before; behind one that is reported it is the changed one.
  abbrev pub Changed :
      (EdgeclawConfig → Result (EdgeclawConfig × String) String)
      → W
      → Result String String × W
      → Type 0
  Changed change w (err e, w') = load_config fs toml path w' ≡ load_config fs toml path w
  Changed change w (ok printed, w') =
      (before : EdgeclawConfig) × (config : EdgeclawConfig) × (load_config fs toml path w
        ≡ ok before)
      × (change before ≡ ok (config, printed))
      × (load_config fs toml path w' ≡ ok config)

  module _ (d : Documented) where
    -- The configuration is saved, or the file is seen as it was.
    abbrev Saved : EdgeclawConfig → W → Result (Unit {0}) String × W → Type 0
    Saved config w (ok u, w') = load_config fs toml path w' ≡ ok config
    Saved config w (err e, w') = seen path w' ≡ seen path w

    -- `map_err` on the reply of an action.
    abbrev told : (String → String) → Result (Unit {0}) String × W → Result (Unit {0}) String × W
    told f (r, w) = (map_err f r, w)

    renamed :
        (config : EdgeclawConfig) (content : String) (w v : W) (f : String → String)
        (x : Result (Unit {0}) String × W)
        → fs.rename (tmp_path fs toml path) path v ≡ x
        → seen (tmp_path fs toml path) v ≡ (true, ok content)
        → seen path v ≡ seen path w
        → toml.from_str content ≡ ok config
        → Saved config w (told f x)
    renamed config content w v f (ok u, v') q t p r =
        load_config-ok v' content config
          (subst (λ y. seen path y.1 ≡ seen (tmp_path fs toml path) v) q
              (d.rename_ok _ path v (ap (λ y. y.0) q))
            ∙ t)
          r
    renamed config content w v f (err e, v') q t p r =
        subst (λ y. seen path y.1 ≡ seen path v) q (d.rename_err _ path e v (ap (λ y. y.0) q)) ∙ p

    rename_tmp-Saved :
        (config : EdgeclawConfig) (content : String) (w v : W) (x : Result (Unit {0}) String × W)
        → fs.write (tmp_path fs toml path) content v ≡ x
        → seen path v ≡ seen path w
        → toml.from_str content ≡ ok config
        → Saved config w (rename_tmp fs toml path x)
    unfolding rename_tmp
    rename_tmp-Saved config content w v (err e, v') q p r =
        subst (λ y. seen path y.1 ≡ seen path v) q (d.write_keeps _ path content v d.other_path) ∙ p
    rename_tmp-Saved config content w v (ok u, v') q p r =
        renamed config content w v' (λ e. "failed to rename temp config to: " <> path <> ": " <> e)
          (fs.rename (tmp_path fs toml path) path v') refl
          (subst (λ y. seen (tmp_path fs toml path) y.1 ≡ (true, ok content)) q
            (d.write_ok _ content v (ap (λ y. y.0) q)))
          (subst (λ y. seen path y.1 ≡ seen path v) q (d.write_keeps _ path content v d.other_path)
            ∙ p)
          r

    write_tmp-Saved :
        (config : EdgeclawConfig) (w v : W) (r : Result String String)
        → toml.to_string_pretty config ≡ r
        → seen path v ≡ seen path w
        → Saved config w (write_tmp fs toml path r v)
    unfolding write_tmp
    write_tmp-Saved config w v (err e) q p = p
    write_tmp-Saved config w v (ok content) q p =
        rename_tmp-Saved config content w v (fs.write (tmp_path fs toml path) content v) refl p
          (d.reads_back config content q)

    save_in-Saved :
        (config : EdgeclawConfig) (w : W) (x : Result (Unit {0}) String × W)
        → seen path x.1 ≡ seen path w
        → Saved config w (save_in fs toml path config x)
    unfolding save_in
    save_in-Saved config w (err e, v) p = p
    save_in-Saved config w (ok u, v) p =
        write_tmp-Saved config w v (toml.to_string_pretty config) refl p

    make_parent-seen :
        (o : Option String) (w : W) → seen path (make_parent fs toml path o w).1 ≡ seen path w
    unfolding make_parent
    make_parent-seen none w = refl
    make_parent-seen (some dir) w = d.create_keeps dir path w

    save_config-Saved :
        (config : EdgeclawConfig) (w : W) → Saved config w (save_config fs toml path config w)
    unfolding save_config
    save_config-Saved config w = save_in-Saved config w _ (make_parent-seen (fs.parent path) w)

    replied-Changed :
        (change : EdgeclawConfig → Result (EdgeclawConfig × String) String)
        (before config : EdgeclawConfig) (printed : String) (w : W)
        (x : Result (Unit {0}) String × W)
        → load_config fs toml path w ≡ ok before
        → change before ≡ ok (config, printed)
        → Saved config w x
        → Changed change w (elim x.0 [ ok u ↦ ok printed | err e ↦ err e ], x.1)
    replied-Changed change before config printed w (ok u, w') l c s = (before, config, l, c, s)
    replied-Changed change before config printed w (err e, w') l c s =
        load_config-seen w' ∙ ap of_seen s ∙ sym (load_config-seen w)

    changed_by :
        (change : EdgeclawConfig → Result (EdgeclawConfig × String) String)
        (before : EdgeclawConfig) (w : W) (r : Result (EdgeclawConfig × String) String)
        → load_config fs toml path w ≡ ok before
        → change before ≡ r
        → Changed change w (elim r [ err e ↦ (err e, w) | ok c ↦ changed fs toml path c w ])
    unfolding changed
    changed_by change before w (err e) l c = refl
    changed_by change before w (ok (config, printed)) l c =
        replied-Changed change before config printed w (save_config fs toml path config w) l c
          (save_config-Saved config w)

    loaded_by :
        (change : EdgeclawConfig → Result (EdgeclawConfig × String) String) (w : W)
        (l : Result EdgeclawConfig String)
        → load_config fs toml path w ≡ l
        → Changed change w (elim l [
          | err e ↦ (err e, w)
          | ok config ↦ elim (change config) [
            | err e ↦ (err e, w)
            | ok c ↦ changed fs toml path c w
          ]
        ])
    loaded_by change w (err e) l = refl
    loaded_by change w (ok before) l = changed_by change before w (change before) l refl

    -- Whatever fails on the way, the configuration that is loaded behind a command is the one before it where the command
    -- failed, and the changed one where it succeeded, if std::fs and toml do as they document.
    pub run_change-Changed :
        (change : EdgeclawConfig → Result (EdgeclawConfig × String) String) (w : W)
        → Changed change w (run_change fs toml path change w)
    unfolding run_change
    run_change-Changed change w = loaded_by change w (load_config fs toml path w) refl
