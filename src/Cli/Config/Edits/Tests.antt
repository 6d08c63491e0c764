-- ===== src/Cli/Config/Edits/Tests.antt =====
-- A file system and a codec that do as they document, and runs of the commands on them.
use Prim.Native.String.{[], ◌∷◌}
use edgeclaw.Prelude.{
  ℕ, String, Option, none, some, ◌≡◌, refl, sym, ap, ◌∙◌, Bool, true, false, List, [], ◌∷◌, str_eq,
  str_eq_refl, is_some,
}
use edgeclaw.Prelude.Text.{◌<>◌}
use edgeclaw.Types.{Result, ok, err}
use edgeclaw.Cli.Config.{
  EdgeclawConfig, ConnectorConfig, PersonalityConfig, ApprovalMode, always_ask, telegram, default,
  connector_name,
}
use edgeclaw.Cli.Config.File.{Fs, Toml, load_config, run_change}
use edgeclaw.Cli.Config.File.Atomic.{Documented, Changed, run_change-Changed}
use edgeclaw.Cli.Config.Edits.{add_connector}
use edgeclaw.Cli.Config.Edits.Names.{
  distinct_names, add, remove, run_commands, FileDistinct, run_commands-Distinct,
}

-- The files, newest first.
abbrev Files : Type 0
Files = List (String × String)

abbrev lookup : String → Files → Option String
lookup p [] = none
lookup p ((q, content) ∷ files) = elim (str_eq q p) [ true ↦ some content | false ↦ lookup p files ]

abbrev read_in : Option String → Result String String
read_in none = err "no such file"
read_in (some content) = ok content

abbrev renamed_in : Option String → String → Files → Result (Unit {0}) String × Files
renamed_in none to files = (err "no such file", files)
renamed_in (some content) to files = (ok tt, (to, content) ∷ files)

abbrev disk : Fs Files
disk = record {
  is_file = λ p files. is_some (lookup p files);
  read_to_string = λ p files. read_in (lookup p files);
  create_dir_all = λ dir files. (ok tt, files);
  write = λ target content files. (ok tt, (target, content) ∷ files);
  rename = λ from to files. renamed_in (lookup from files) to files;
  parent = λ p. some "dir";
  with_extension = λ p e. p <> "." <> e;
}

-- The configurations that the codec can write: one connector, or none.
abbrev config_of : String → EdgeclawConfig
config_of [] = default
config_of (c ∷ name) = record default { connectors = telegram name "" [] ∷ [] }

abbrev check :
    (a b c d e f : Option String) (m n : Option ℕ) (mode : ApprovalMode)
    (allowed enabled : List String) (ps : List PersonalityConfig) (cs : List ConnectorConfig)
    → Option (
        (s : String) × (config_of s ≡ record {
          model = record {
            provider = a;
            model = b;
            api_key = c;
            base_url = d;
            max_tokens = m;
            temperature = e;
          };
          server = record { host = f; port = n };
          approval = record { mode = mode; allowed_tools = allowed };
          tools = record { enabled = enabled };
          personalities = ps;
          connectors = cs;
        }))
check none none none none none none none none always_ask [] [] [] [] = some ("", refl)
check none none none none none none none none always_ask [] [] [] (telegram name [] [] ∷ []) =
    some ("t" <> name, refl)
check a b c d e f m n mode allowed enabled ps cs = none

abbrev checked : (c : EdgeclawConfig) → Option ((s : String) × (config_of s ≡ c))
checked c =
    check c.model.provider c.model.model c.model.api_key c.model.base_url c.model.temperature
      c.server.host c.model.max_tokens c.server.port c.approval.mode c.approval.allowed_tools
      c.tools.enabled c.personalities c.connectors

abbrev printed_of :
    {c : EdgeclawConfig} → Option ((s : String) × (config_of s ≡ c)) → Result String String
printed_of none = err "not written"
printed_of (some (s, e)) = ok s

abbrev codec : Toml
codec = record { from_str = λ s. ok (config_of s); to_string_pretty = λ c. printed_of (checked c) }

ok-injective : (a b : String) → ◌≡◌ {A = Result String String} (ok a) (ok b) → a ≡ b
ok-injective a b h = cc

printed_of-back :
    (c : EdgeclawConfig) (o : Option ((s : String) × (config_of s ≡ c))) (s : String)
    → printed_of o ≡ ok s
    → ◌≡◌ {A = Result EdgeclawConfig String} (ok (config_of s)) (ok c)
printed_of-back c none s h = cc
printed_of-back c (some (s', e)) s h = ap ok (ap config_of (sym (ok-injective s' s h)) ∙ e)

lookup-skip :
    (q p content : String) (files : Files)
    → str_eq q p ≡ false
    → lookup p ((q, content) ∷ files) ≡ lookup p files
lookup-skip q p content files e =
    ap (λ b. elim b [ true ↦ some content | false ↦ lookup p files ]) e

lookup-top : (p content : String) (files : Files) → lookup p ((p, content) ∷ files) ≡ some content
lookup-top p content files =
    ap (λ b. elim b [ true ↦ some content | false ↦ lookup p files ]) (str_eq_refl p)

abbrev seen_as : Option String → Bool × Result String String
seen_as o = (is_some o, read_in o)

renamed_in-ok :
    (o : Option String) (to : String) (files : Files)
    → (renamed_in o to files).0 ≡ ok tt
    → seen_as (lookup to (renamed_in o to files).1) ≡ seen_as o
renamed_in-ok none to files h = cc
renamed_in-ok (some content) to files h = ap seen_as (lookup-top to content files)

renamed_in-err :
    (o : Option String) (to e : String) (files : Files)
    → (renamed_in o to files).0 ≡ err e
    → seen_as (lookup to (renamed_in o to files).1) ≡ seen_as (lookup to files)
renamed_in-err none to e files h = refl
renamed_in-err (some content) to e files h = cc

documented : Documented disk codec "c"
documented = record {
  create_keeps = λ dir p w. refl;
  write_keeps = λ target p content w e. ap seen_as (lookup-skip target p content w e);
  write_ok = λ target content w h. ap seen_as (lookup-top target content w);
  rename_ok = λ from to w h. renamed_in-ok (lookup from w) to w h;
  rename_err = λ from to e w h. renamed_in-err (lookup from w) to e w h;
  reads_back = λ c s h. printed_of-back c (checked c) s h;
  other_path = refl;
}

abbrev bot : ConnectorConfig
bot = telegram "b" "" []

-- An addition to a file that is not there, and what is in it then.
added : (run_change disk codec "c" (add_connector bot) []).0 ≡ ok "Added connector 'b'."
unfolding run_change add_connector connector_name
added = refl

run_change-Changed_example :
    Changed disk codec "c" (add_connector bot) [] (run_change disk codec "c" (add_connector bot) [])
run_change-Changed_example = run_change-Changed disk codec "c" documented (add_connector bot) []

run_commands-Distinct_example : FileDistinct disk codec "c" (
    load_config disk codec "c"
      (run_commands disk codec "c" (add bot ∷ add bot ∷ remove "b" ∷ add bot ∷ []) []))
unfolding distinct_names load_config
run_commands-Distinct_example =
    run_commands-Distinct disk codec "c" documented (add bot ∷ add bot ∷ remove "b" ∷ add bot ∷ [])
      [] refl
