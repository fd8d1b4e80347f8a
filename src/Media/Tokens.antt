-- ===== src/Media/Tokens.antt =====
-- media/shell_source.go, tokenizeShell. The command line is a list of characters: in UTF-8 the
-- bytes that the scanner looks for occur only as themselves.
pub mod Roundtrip
use text.Mathlib.TextBridge.{of_list}
use Prim.Native.String.{String}
use Prim.Native.Char.{code, Char}
use gotgcall.Base.{
  Bool, List, Option, [], false, if◌then◌else◌, none, not, some, true, ◌&&◌, ◌++◌, ◌==◌, ◌||◌, ◌∷◌,
}

-- The variables of the loop: `skip` says that the next byte was consumed already (`i++`).
pub record Scan : Type 0 where
  pub skip : Bool
  pub in_quote : Bool
  pub cur : List Char

abbrev pub is_quote : Char → Bool
is_quote c = code c == b'"'

abbrev pub is_backslash : Char → Bool
is_backslash c = code c == 92

-- A blank, a tab or a new line
abbrev pub is_space : Char → Bool
is_space c = code c == 32 || code c == 9 || code c == 10

abbrev pub is_special : Char → Bool
is_special c = is_quote c || is_backslash c

-- `\"` or `\\` at `c` with `rest` behind: the character that it stands for.
abbrev pub escaped : Char → List Char → Option Char
escaped c [] = none
escaped c (next ∷ rest) = if is_backslash c && is_special next then some next else none

-- flush: the token that it appends, if any.
abbrev pub flush : List Char → List String
flush [] = []
flush (c ∷ cs) = of_list (c ∷ cs) ∷ []

-- The body of the loop at `c`: the variables afterwards, and the tokens appended.
unfoldable pub scan_step : Scan → Char → List Char → Scan × List String
scan_step s c rest = if s.skip then (record s { skip = false }, []) else elim (escaped c rest) [
  | some next ↦ (record s { skip = true; cur = s.cur ++ next ∷ [] }, [])
  | none ↦
      if is_quote c
      then (record s { in_quote = not s.in_quote }, [])
      else if is_space c && not s.in_quote
      then (record s { cur = [] }, flush s.cur)
      else (record s { cur = s.cur ++ c ∷ [] }, [])
]

unfoldable pub scan : Scan → List Char → List String
unfolding scan_step
scan s [] = flush s.cur
scan s (c ∷ rest) = let (s', tokens) = scan_step s c rest in tokens ++ scan s' rest

-- tokenizeShell
unfoldable pub tokenize_shell : List Char → List String
unfolding scan
tokenize_shell = scan (record { skip = false; in_quote = false; cur = [] })
