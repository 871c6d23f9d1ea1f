-- ===== src/PackagePlan/Plan.antt =====
-- `parseAPTVersion3Plan` and `parseAPTVersion3Side` of internal/action/package_plan_guard.go.
pub mod Parsing
use Prim.Native.String.{◌++◌ as cat}
use witshield.Base.{
  ℕ, ◌*◌, String, len, Bool, true, false, not, ◌&&◌, ◌||◌, Option, none, some, List, [], ◌∷◌,
  length, ltb, ◌==◌, str_eq, if◌then◌else◌,
}
use witshield.Base.Dict.{lookup, insert}
use witshield.Helper.Files.{has_suffix}
use witshield.Helper.Capacity.{Outcome, ok, err}
use witshield.PackagePlan.Names.{is_base_package, is_architecture, is_version, package_key}

pub record PackageVersionTransition : Type 0 where
  pub from : String
  pub to : String
  pub direction : String

abbrev pub Plan : Type 0
Plan = List (String × PackageVersionTransition)

unfoldable pub transition_eq : PackageVersionTransition → PackageVersionTransition → Bool
transition_eq s t = str_eq s.from t.from && str_eq s.to t.to && str_eq s.direction t.direction

-- One line of the input, as ReadString gives it: its length, and the text without its line break; or
-- an error other than the end.
pub data Line : Type 0 where
  line : ℕ → String → Line
  broken : Line

-- What is taken from strings, path/filepath and fmt.
pub record Text : Type 0 where
  pub fields : String → List String
  pub contains : String → String → Bool
  pub is_abs : String → Bool
  -- the verb %q
  pub quote : String → String

-- A side of a package action: present, with its architecture and Multi-Arch type, or absent.
pub data Side : Type 0 where
  present : String → String → Side
  absent_side : Side

unfoldable pub parse_side : String → String → String → Option Side
parse_side version architecture multi_arch =
    if str_eq version "-"
    then (if not (str_eq architecture "-")
          || (not (str_eq multi_arch "none") && not (str_eq multi_arch "no"))
        then none
        else some absent_side)
    else if not (is_version version) || not (is_architecture architecture)
    then none
    else (let multi_arch' = if str_eq multi_arch "none" then "no" else multi_arch in
        if not (str_eq multi_arch' "same")
          && not (str_eq multi_arch' "foreign")
          && not (str_eq multi_arch' "allowed")
          && not (str_eq multi_arch' "no")
        then none
        else some (present architecture multi_arch'))

-- The architecture that both sides allow.
unfoldable pub joint_architecture : Side → Side → Option String
joint_architecture absent_side absent_side = none
joint_architecture absent_side (present b n) = some b
joint_architecture (present a m) absent_side = some a
joint_architecture (present a m) (present b n) = if str_eq a b && str_eq m n then some a else none

pub record PackageAction : Type 0 where
  pub name : String
  pub transition : PackageVersionTransition
  pub what : String

-- The nine fields of a line, checked, but for the last one.
unfoldable pub parse_action : List String → Option PackageAction
parse_action
      (base ∷ from ∷ old_architecture ∷ old_multi ∷ direction ∷ to ∷ new_architecture ∷ new_multi
        ∷ what ∷ []) =
    if not (is_base_package base)
      || (not (str_eq direction "<") && not (str_eq direction "=") && not (str_eq direction ">"))
    then none
    else elim (parse_side from old_architecture old_multi) [
      | none ↦ none
      | some old ↦ elim (parse_side to new_architecture new_multi) [
        | none ↦ none
        | some new ↦ elim (joint_architecture old new) [
          | none ↦ none
          | some architecture ↦ some (record {
            name = package_key base architecture;
            transition = record { from = from; to = to; direction = direction };
            what = what;
          })
        ]
      ]
    ]
parse_action _ = none

-- The two maps that the loop fills.
pub record Plans : Type 0 where
  pub plan : Plan
  pub configured : Plan

-- An entry that the map has already must be the same.
unfoldable pub agrees : Plan → PackageAction → Bool
unfolding transition_eq
agrees m a = elim (lookup a.name m) [
  | none ↦ true
  | some previous ↦ transition_eq previous a.transition
]

module _ (t : Text) where
  -- One package action is entered.
  unfoldable pub enter_action : PackageAction → Plans → Option Plans
  unfolding agrees has_suffix
  enter_action a s =
      if str_eq a.what "**CONFIGURE**"
      then (if agrees s.configured a
          then some (record s { configured = insert a.name a.transition s.configured })
          else none)
      else if not (str_eq a.what "**REMOVE**")
          && (not (t.is_abs a.what) || not (has_suffix ".deb" a.what))
      then none
      else if not (agrees s.plan a)
      then none
      else (let plan = insert a.name a.transition s.plan in
          if ltb 512 (length plan) then none else some (record s { plan = plan }))

  -- One line after the configuration.
  unfoldable pub enter_line : Line → Plans → Option Plans
  enter_line broken s = none
  enter_line (line size text) s =
      if ltb (64 * 1024) size
      then none
      else if str_eq text ""
      then some s
      else elim (parse_action (t.fields text)) [ none ↦ none | some a ↦ enter_action a s ]

  pub enter_lines : List Line → Plans → Option Plans
  unfolding enter_line
  enter_lines [] s = some s
  enter_lines (l ∷ ls) s = elim (enter_line l s) [ none ↦ none | some s' ↦ enter_lines ls s' ]

  -- The lines after the empty one that ends the configuration.
  pub skip_configuration : List Line → Option (List Line)
  skip_configuration [] = none
  skip_configuration (broken ∷ ls) = none
  skip_configuration (line size text ∷ ls) =
      let rest = skip_configuration ls in
      if ltb (64 * 1024) size
      then none
      else if str_eq text ""
      then some ls
      else if not (t.contains text "=") || t.contains text "\0"
      then none
      else rest

  -- Every configure action has its package transition.
  pub all_paired : Plan → Plan → Bool
  unfolding transition_eq
  all_paired plan [] = true
  all_paired plan ((name, transition) ∷ rest) =
      elim (lookup name plan) [ none ↦ false | some archived ↦ transition_eq archived transition ]
      && all_paired plan rest

  unfoldable pub finish_plan : Plans → Option Plan
  unfolding all_paired
  finish_plan s =
      if not (all_paired s.plan s.configured)
      then none
      else elim s.plan [ [] ↦ none | x ∷ rest ↦ some (x ∷ rest) ]

  -- The lines after the first.
  parse_body : List Line → Option Plan
  unfolding finish_plan enter_lines skip_configuration
  parse_body ls = elim (skip_configuration ls) [
    | none ↦ none
    | some actions ↦ elim (enter_lines actions (record { plan = []; configured = [] })) [
      | none ↦ none
      | some s ↦ finish_plan s
    ]
  ]

  unfoldable pub parse_apt_version3_plan : List Line → Option Plan
  unfolding parse_body
  parse_apt_version3_plan [] = none
  parse_apt_version3_plan (broken ∷ ls) = none
  parse_apt_version3_plan (line size text ∷ ls) =
      if ltb (64 * 1024) size || not (str_eq text "VERSION 3") then none else parse_body ls
