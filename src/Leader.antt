-- ===== src/Leader.antt =====
-- leader/permissions.py: may the Leader write a file. `fnmatch.fnmatch` and the home directory are
-- parameters. A pattern is its placeholder and the rest, which is what the two replacements make of it where
-- the root does not hold "{HOME}".
pub mod Rulings
mod Tests
use Prim.Native.String.{◌++◌}
use herdr_bridge.Prelude.{
  Bool, true, false, List, [], ◌∷◌, String, ◌==◌, text_key, ◌||◌, if◌then◌else◌,
}

pub data Pattern : Type 0 where
  in_root : String → Pattern
  in_home : String → Pattern

pub data Decision : Type 0 where
  allow : Decision
  deny : Decision

pub record Rule : Type 0 where
  pub id : String
  pub pattern : Pattern
  pub decision : Decision
  pub require_human_confirmation : Bool

-- The answer, without the text of its reason.
pub record Ruling : Type 0 where
  pub verdict : Decision
  pub rule_id : String
  pub confirmation : Bool

-- tool_name in _WRITE_TOOLS
abbrev pub is_write_tool : String → Bool
is_write_tool tool = tool == "Edit" || tool == "Write" || tool == "MultiEdit"

-- _TUI_NATIVE_INFRA_PATTERNS
abbrev pub tui_native : List Pattern
tui_native =
    in_home "/.claude/projects/**"
    ∷ in_home "/.codex/**"
    ∷ in_home "/.gemini/**"
    ∷ in_home "/.copilot/**"
    ∷ in_home "/.config/opencode/**"
    ∷ in_home "/.local/share/opencode/**"
    ∷ in_home "/.local/state/opencode/**"
    ∷ in_home "/.grok/**"
    ∷ in_home "/.warp/**"
    ∷ []

abbrev pub native_rules : List Pattern → List Rule
native_rules [] = []
native_rules (p ∷ l) =
    record {
      id = "allow-tui-native-infra";
      pattern = p;
      decision = allow;
      require_human_confirmation = false;
    }
    ∷ native_rules l

abbrev pub dispatch_rule : Rule
dispatch_rule = record {
  id = "allow-dispatch-own";
  pattern = in_root "/dispatch/**";
  decision = allow;
  require_human_confirmation = false;
}

abbrev pub permissions_rule : Rule
permissions_rule = record {
  id = "deny-self-permissions";
  pattern = in_root "/config/leader-permissions.json";
  decision = deny;
  require_human_confirmation = false;
}

abbrev pub charter_rule : Rule
charter_rule = record {
  id = "deny-charter";
  pattern = in_root "/charter/**";
  decision = deny;
  require_human_confirmation = false;
}

abbrev pub config_rule : Rule
config_rule = record {
  id = "allow-own-config-with-confirm";
  pattern = in_root "/config/**";
  decision = allow;
  require_human_confirmation = true;
}

abbrev pub repo_rule : Rule
repo_rule = record {
  id = "allow-own-repo";
  pattern = in_root "/**";
  decision = allow;
  require_human_confirmation = false;
}

-- _RULES
abbrev pub rules : List Rule
rules =
    dispatch_rule
    ∷ permissions_rule
    ∷ charter_rule
    ∷ config_rule
    ∷ repo_rule
    ∷ native_rules tui_native

abbrev pub expand : String → String → Pattern → String
expand root home (in_root rest) = root ++ rest
expand root home (in_home rest) = home ++ rest

module _ (fnmatch : String → String → Bool) (home : String) where
  -- The loop over the rules, and the answer where none matches.
  unfoldable pub judge : List Rule → String → String → Ruling
  judge [] path root = record {
    verdict = deny;
    rule_id = "deny-downstream-edit";
    confirmation = false;
  }
  judge (r ∷ l) path root =
      let later = judge l path root in
      if fnmatch path (expand root home r.pattern)
      then record {
        verdict = r.decision;
        rule_id = r.id;
        confirmation = r.require_human_confirmation;
      }
      else later

  unfoldable pub evaluate : String → String → String → Ruling
  evaluate tool path root =
      if is_write_tool tool
      then judge rules path root
      else record { verdict = allow; rule_id = "not-write-tool"; confirmation = false }
