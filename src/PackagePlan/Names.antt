-- ===== src/PackagePlan/Names.antt =====
-- The patterns of Debian names of internal/action/package_upgrade.go.
use Prim.Native.String.{String, ◌++◌ as cat}
use Prim.Native.Char.{code}
use Prim.Native.String.append
use witshield.Base.{
  ℕ, ◌≡◌, ◌≢◌, refl, sym, ap, ◌∙◌, Bool, true, false, not, ◌&&◌, ◌||◌, Option, none, some, List, [],
  ◌∷◌, length, leb, ◌==◌, if◌then◌else◌, arith,
}
use witshield.Engine.Seal.{codes}

unfoldable pub is_digit : ℕ → Bool
is_digit byte = leb b'0' byte && leb byte b'9'

unfoldable pub is_lower : ℕ → Bool
is_lower byte = leb b'a' byte && leb byte b'z'

unfoldable pub is_upper : ℕ → Bool
is_upper byte = leb b'A' byte && leb byte b'Z'

abbrev pub any_of : List ℕ → ℕ → Bool
any_of [] c = false
any_of (d ∷ ds) c = (c == d) || any_of ds c

-- The characters after the first.
is_base_char : ℕ → Bool
unfolding is_digit is_lower
is_base_char c = is_lower c || is_digit c || any_of (b'+' ∷ b'.' ∷ b'-' ∷ []) c

is_architecture_char : ℕ → Bool
unfolding is_digit is_lower
is_architecture_char c = is_lower c || is_digit c || c == b'-'

is_version_char : ℕ → Bool
unfolding is_digit is_lower is_upper
is_version_char c =
    is_upper c
    || is_lower c
    || is_digit c
    || any_of (b'.' ∷ b'+' ∷ b':' ∷ b'~' ∷ b'_' ∷ b'-' ∷ []) c

unfoldable pub all_chars : (ℕ → Bool) → List ℕ → Bool
all_chars p [] = true
all_chars p (c ∷ s) = p c && all_chars p s

-- `^[first][rest]{0,limit}$`
unfoldable pub matches : (ℕ → Bool) → (ℕ → Bool) → ℕ → List ℕ → Bool
unfolding all_chars
matches first rest limit [] = false
matches first rest limit (c ∷ s) = first c && all_chars rest s && leb (length s) limit

-- debianBasePackagePattern
unfoldable pub is_base_package : String → Bool
unfolding matches is_lower is_digit is_base_char
is_base_package s = matches (λ c. is_lower c || is_digit c) is_base_char 127 (codes s)

-- debianArchitecturePattern
unfoldable pub is_architecture : String → Bool
unfolding matches is_lower is_digit is_architecture_char
is_architecture s = matches (λ c. is_lower c || is_digit c) is_architecture_char 31 (codes s)

-- debianVersionPattern
unfoldable pub is_version : String → Bool
unfolding matches is_lower is_digit is_upper is_version_char
is_version s = matches (λ c. is_upper c || is_lower c || is_digit c) is_version_char 255 (codes s)

-- strings.Cut at the first colon
unfoldable pub cut : String → Option (String × String)
cut String.[] = none
cut (String.◌∷◌ c s) =
    let rest = cut s in
    if code c == b':'
    then some ("", s)
    else elim rest [ none ↦ none | some (before, after) ↦ some (String.◌∷◌ c before, after) ]

unfoldable pub has_colon : String → Bool
unfolding cut
has_colon s = elim (cut s) [ none ↦ false | some _ ↦ true ]

-- `isCanonicalDebianPackage`
unfoldable pub is_canonical_package : String → Bool
unfolding cut has_colon is_base_package is_architecture
is_canonical_package name = elim (cut name) [
  | none ↦ false
  | some (base, architecture) ↦
      not (has_colon architecture) && is_base_package base && is_architecture architecture
]

-- The key of a package in a plan.
abbrev pub package_key : String → String → String
package_key base architecture = cat base (cat ":" architecture)

NoColon : (ℕ → Bool) → Type 0
NoColon p = (c : ℕ) → p c ≡ true → (c == b':') ≡ false

cut-none : (p : ℕ → Bool) → NoColon p → (s : String) → all_chars p (codes s) ≡ true → cut s ≡ none
unfolding cut all_chars NoColon
cut-none p n String.[] h = refl
cut-none p n (String.◌∷◌ c s) h = ground (arith, n (code c), cut-none p n s)

cut_colon : (architecture : String) → cut (cat ":" architecture) ≡ some ("", architecture)
unfolding cut
cut_colon architecture =
    rw (append.cons ":" String.[] architecture) (rw (append.nil architecture) refl)

cut-package_key :
    (p : ℕ → Bool)
    → NoColon p
    → (base architecture : String) → all_chars p (codes base) ≡ true
    → cut (package_key base architecture) ≡ some (base, architecture)
unfolding cut all_chars NoColon
cut-package_key p n String.[] architecture h =
    ap cut (append.nil (cat ":" architecture)) ∙ cut_colon architecture
cut-package_key p n (String.◌∷◌ c s) architecture h =
    let step : cut (package_key (String.◌∷◌ c s) architecture)
        ≡ cut (String.◌∷◌ c (package_key s architecture)) =
      ap cut (append.cons c s (cat ":" architecture)) in
    let rest : cut (package_key s architecture) ≡ some (s, architecture) =
      cut-package_key p n s architecture (ground arith) in
    step ∙ ground (arith, n (code c))

base-NoColon : NoColon is_base_char
unfolding NoColon is_base_char is_digit is_lower
base-NoColon c h = ground arith

architecture-NoColon : NoColon is_architecture_char
unfolding NoColon is_architecture_char is_digit is_lower
architecture-NoColon c h = ground arith

matches-all_chars :
    (f r : ℕ → Bool)
    → ((c : ℕ) → f c ≡ true → r c ≡ true)
    → (limit : ℕ) (s : List ℕ) → matches f r limit s ≡ true
    → all_chars r s ≡ true
unfolding matches all_chars
matches-all_chars f r i limit [] h = refl
matches-all_chars f r i limit (c ∷ s) h = ground (arith, i c)

base-all_chars : (s : String) → is_base_package s ≡ true → all_chars is_base_char (codes s) ≡ true
unfolding is_base_package is_base_char
base-all_chars s =
    matches-all_chars (λ c. is_lower c || is_digit c) is_base_char (λ c h. ground arith) 127
      (codes s)

architecture-all_chars :
    (s : String) → is_architecture s ≡ true → all_chars is_architecture_char (codes s) ≡ true
unfolding is_architecture is_architecture_char
architecture-all_chars s =
    matches-all_chars (λ c. is_lower c || is_digit c) is_architecture_char (λ c h. ground arith) 31
      (codes s)

-- The key that a plan gives a package is canonical.
pub package_key-canonical :
    (base architecture : String)
    → is_base_package base ≡ true
    → is_architecture architecture ≡ true
    → is_canonical_package (package_key base architecture) ≡ true
unfolding is_canonical_package has_colon
package_key-canonical base architecture b a =
    let parts =
      cut-package_key is_base_char base-NoColon base architecture (base-all_chars base b) in
    let whole =
      cut-none is_architecture_char architecture-NoColon architecture
        (architecture-all_chars architecture a) in
    ground arith

-- A version is not the mark of an absent one.
pub version-present : (s : String) → is_version s ≡ true → s ≢ "-"
version-present s h e = true≢false (sym h ∙ ap is_version e ∙ dash)
  where
    dash : is_version "-" ≡ false
    dash = unfold is_version in refl

    true≢false : true ≡ false → ⊥
    true≢false x = ground arith
