-- ===== src/Leader/Rulings.antt =====
-- What leader/permissions.py decides, as one condition on the patterns that a path matches.
use herdr_bridge.Prelude.{
  ◌≡◌, refl, Bool, true, false, not, List, [], ◌∷◌, String, ◌&&◌, ◌||◌, arith,
}
use herdr_bridge.Leader.{
  Pattern, in_root, Decision, allow, deny, is_write_tool, tui_native, native_rules, expand, judge,
  evaluate,
}

abbrev pub is_allowed : Decision → Bool
is_allowed allow = true
is_allowed deny = false

module _ (fnmatch : String → String → Bool) (home path root : String) where
  abbrev pub matches : Pattern → Bool
  matches p = fnmatch path (expand root home p)

  abbrev pub matches_some : List Pattern → Bool
  matches_some [] = false
  matches_some (p ∷ l) = matches p || matches_some l

  -- The Leader's own rules and charter, which nothing but the dispatch directory comes before.
  abbrev pub is_guarded : Bool
  is_guarded =
      matches (in_root "/config/leader-permissions.json") || matches (in_root "/charter/**")

  abbrev pub is_own : Bool
  is_own = matches (in_root "/config/**") || (matches (in_root "/**") || matches_some tui_native)

  native-verdict :
      (l : List Pattern)
      → is_allowed (judge fnmatch home (native_rules l) path root).verdict ≡ matches_some l
  unfolding judge
  native-verdict [] = refl
  native-verdict (p ∷ l) = ground (arith, native-verdict l)

  native-confirmation :
      (l : List Pattern) → (judge fnmatch home (native_rules l) path root).confirmation ≡ false
  unfolding judge
  native-confirmation [] = refl
  native-confirmation (p ∷ l) = ground (arith, native-confirmation l)

-- A write is allowed exactly in the dispatch directory, or outside the charter and the file of permissions
-- and in the Leader's own configuration, its own repository or a place of its own terminal program. It asks
-- for a human exactly in the configuration, outside those three. Every other tool is allowed. This holds
-- for any matching of patterns.
pub evaluate_decides :
    (fnmatch : String → String → Bool) (home path root tool : String)
    → (is_allowed (evaluate fnmatch home tool path root).verdict ≡ (
        not (is_write_tool tool)
        || (matches fnmatch home path root (in_root "/dispatch/**")
            || (not (is_guarded fnmatch home path root) && is_own fnmatch home path root))))
      × ((evaluate fnmatch home tool path root).confirmation ≡ (
          is_write_tool tool
          && (not (matches fnmatch home path root (in_root "/dispatch/**"))
              && (not (is_guarded fnmatch home path root)
                  && matches fnmatch home path root (in_root "/config/**")))))
unfolding evaluate judge
evaluate_decides fnmatch home path root tool =
    let v : is_allowed (judge fnmatch home (native_rules tui_native) path root).verdict
        ≡ matches_some fnmatch home path root tui_native =
      native-verdict fnmatch home path root tui_native in
    let c : (judge fnmatch home (native_rules tui_native) path root).confirmation ≡ false =
      native-confirmation fnmatch home path root tui_native in
    (ground (arith, v, c), ground (arith, v, c))
