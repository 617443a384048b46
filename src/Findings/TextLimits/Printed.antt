-- ===== src/Findings/TextLimits/Printed.antt =====
-- JSON values with their layout, and the limits on them that the scan of their text must find.
-- (dot_agents/skills/security-audit/validate-findings.cjs)
pub mod Scanned
pub mod Correct
use dotfiles_ai.Base.{
  ℕ, zero, suc, ◌≡◌, Bool, true, false, ◌&&◌, ◌||◌, List, [], ◌∷◌, ◌++◌, ltb, leb, ◌==◌, within,
}
use dotfiles_ai.Base.Lists.{All}
use dotfiles_ai.Js.Text.{Text}

-- A character of a string, as it is or behind a backslash.
pub data Piece : Type 0 where
  raw : ℕ → Piece
  escaped : ℕ → Piece

-- A value: a literal or a number, a string, an array, an object, or a value between blanks. An array
-- and an object end with blanks, a key stands between blanks.
mutual
  pub data Tree : Type 0 where
    word : ℕ → Text → Tree
    quoted : List Piece → Tree
    items : Trees → Tree
    fields : Entries → Tree
    between : Text → Tree → Text → Tree

  pub data Trees : Type 0 where
    nil : Text → Trees
    cons : Tree → Trees → Trees

  pub data Entries : Type 0 where
    end : Text → Entries
    entry : Text → List Piece → Text → Tree → Entries → Entries

-- The text of a value, in front of what follows it.
abbrev pub print_pieces : List Piece → Text → Text
print_pieces [] rest = rest
print_pieces (raw c ∷ ps) rest = c ∷ print_pieces ps rest
print_pieces (escaped c ∷ ps) rest = b'\\' ∷ c ∷ print_pieces ps rest

abbrev pub print_string : List Piece → Text → Text
print_string ps rest = b'"' ∷ print_pieces ps (b'"' ∷ rest)

abbrev pub separate : Bool → Text → Text
separate true rest = rest
separate false rest = b',' ∷ rest

unfoldable mutual
  pub print : Tree → Text → Text
  print (word c s) rest = c ∷ (s ++ rest)
  print (quoted ps) rest = print_string ps rest
  print (items ts) rest = b'[' ∷ print_items true ts rest
  print (fields es) rest = b'{' ∷ print_fields true es rest
  print (between before t after) rest = before ++ print t (after ++ rest)

  pub print_items : Bool → Trees → Text → Text
  print_items first (nil blanks) rest = blanks ++ b']' ∷ rest
  print_items first (cons t ts) rest = separate first (print t (print_items false ts rest))

  pub print_fields : Bool → Entries → Text → Text
  print_fields first (end blanks) rest = blanks ++ b'}' ∷ rest
  print_fields first (entry before key after t es) rest =
      separate first
        (before ++ print_string key (after ++ b':' ∷ print t (print_fields false es rest)))

unfoldable pub is_word_char : ℕ → Bool
is_word_char c =
    within b'a' b'z' c
    || within b'A' b'Z' c
    || within b'0' b'9' c
    || c == b'+'
    || c == b'-'
    || c == b'.'

unfoldable pub is_layout : ℕ → Bool
is_layout c = c == 9 || c == 10 || c == 13 || c == 32

abbrev pub IsWord : Text → Type 0
IsWord s = All (λ c. is_word_char c ≡ true) s

abbrev pub AreBlanks : Text → Type 0
AreBlanks s = All (λ c. is_layout c ≡ true) s

abbrev pub IsPiece : Piece → Type 0
IsPiece (raw c) = ((c == b'"') ≡ false) × ((c == b'\\') ≡ false)
IsPiece (escaped c) = Unit

-- The words, the strings and the blanks are what their names say.
unfoldable mutual
  pub IsJson : Tree → Type 0
  IsJson (word c s) = (is_word_char c ≡ true) × IsWord s
  IsJson (quoted ps) = All IsPiece ps
  IsJson (items ts) = AreJson ts
  IsJson (fields es) = AreFields es
  IsJson (between before t after) = AreBlanks before × (IsJson t × AreBlanks after)

  pub AreJson : Trees → Type 0
  AreJson (nil blanks) = AreBlanks blanks
  AreJson (cons t ts) = IsJson t × AreJson ts

  pub AreFields : Entries → Type 0
  AreFields (end blanks) = AreBlanks blanks
  AreFields (entry before key after t es) =
      AreBlanks before × (All IsPiece key × (AreBlanks after × (IsJson t × AreFields es)))

abbrev pub count_of : Trees → ℕ
count_of (nil blanks) = 0
count_of (cons t ts) = suc (count_of ts)

-- Behind `depth` open brackets, no value is behind more than 64, and no array has more than 1000
-- items.
unfoldable mutual
  pub fits : ℕ → Tree → Bool
  fits depth (word c s) = true
  fits depth (quoted ps) = true
  fits depth (items ts) = ltb depth 64 && (leb (count_of ts) 1000 && all_fit (suc depth) ts)
  fits depth (fields es) = ltb depth 64 && fields_fit (suc depth) es
  fits depth (between before t after) = fits depth t

  pub all_fit : ℕ → Trees → Bool
  all_fit depth (nil blanks) = true
  all_fit depth (cons t ts) = fits depth t && all_fit depth ts

  pub fields_fit : ℕ → Entries → Bool
  fields_fit depth (end blanks) = true
  fields_fit depth (entry before key after t es) = fits depth t && fields_fit depth es
