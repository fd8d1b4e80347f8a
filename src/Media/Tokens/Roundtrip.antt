-- ===== src/Media/Tokens/Roundtrip.antt =====
-- Command lines that are written with quotes come back as their arguments.
use Prim.Native.String.{String}
use Prim.Native.Char.{Char}
use gotgcall.Media.Tokens.{Scan, is_space, is_special, scan, flush, tokenize_shell}
use gotgcall.Base.{
  Bool, List, [], ap, append-nil, arith, false, if◌then◌else◌, not, sym, true, ◌&&◌, ◌++◌, ◌∷◌, ◌≡◌,
  append_assoc, refl, ◌∙◌,
}

abbrev pub backslash : Char
backslash = "\\"

abbrev pub double_quote : Char
double_quote = "\""

abbrev pub blank : Char
blank = " "

-- An argument with its quotes and backslashes escaped.
abbrev pub escape : List Char → List Char
escape [] = []
escape (c ∷ cs) = (if is_special c then backslash ∷ c ∷ [] else c ∷ []) ++ escape cs

-- An argument between double quotes.
abbrev pub quoted : List Char → List Char
quoted t = double_quote ∷ (escape t ++ double_quote ∷ [])

abbrev pub separated : List (List Char) → List Char
separated [] = []
separated (t ∷ ts) = quoted t ++ blank ∷ separated ts

abbrev at : Bool → List Char → Scan
at q cur = record { skip = false; in_quote = q; cur = cur }

-- One character that is escaped where it has to be is read as itself.
scan-special :
    (q : Bool) (cur : List Char) (c : Char) (rest : List Char)
    → is_special c ≡ true
    → scan (at q cur) (backslash ∷ c ∷ rest) ≡ scan (at q (cur ++ c ∷ [])) rest
unfolding scan
scan-special q cur c rest h = ground arith

scan-plain :
    (q : Bool) (cur : List Char) (c : Char) (rest : List Char)
    → is_special c ≡ false
    → (is_space c && not q) ≡ false
    → scan (at q cur) (c ∷ rest) ≡ scan (at q (cur ++ c ∷ [])) rest
unfolding scan
scan-plain q cur c [] h sp = ground arith
scan-plain q cur c (n ∷ rest) h sp = ground arith

abbrev pub NoSpace : Bool → List Char → Type 0
NoSpace q [] = Unit {0}
NoSpace q (c ∷ cs) = ((is_space c && not q) ≡ false) × NoSpace q cs

scan-escape_char :
    (q : Bool) (cur : List Char) (c : Char) (rest : List Char)
    → (is_space c && not q) ≡ false
    → scan (at q cur) ((if is_special c then backslash ∷ c ∷ [] else c ∷ []) ++ rest)
      ≡ scan (at q (cur ++ c ∷ [])) rest
scan-escape_char q cur c rest sp =
    ground (arith, scan-special q cur c rest, scan-plain q cur c rest)

-- An escaped text is read back as it was, inside quotes or without blanks.
scan-escape :
    (q : Bool) (cur t rest : List Char)
    → NoSpace q t
    → scan (at q cur) (escape t ++ rest) ≡ scan (at q (cur ++ t)) rest
scan-escape q cur [] rest h = ap (λ x. scan (at q x) rest) (sym (append-nil cur))
scan-escape q cur (c ∷ t) rest h =
    ap (scan (at q cur))
      (append_assoc (if is_special c then backslash ∷ c ∷ [] else c ∷ []) (escape t) rest)
    ∙ scan-escape_char q cur c (escape t ++ rest) h.0
    ∙ scan-escape q (cur ++ c ∷ []) t rest h.1
    ∙ ap (λ x. scan (at q x) rest) (append_assoc cur (c ∷ []) t)

scan-double_quote :
    (q : Bool) (cur rest : List Char)
    → scan (at q cur) (double_quote ∷ rest) ≡ scan (at (not q) cur) rest
unfolding scan
scan-double_quote q cur [] = ground arith
scan-double_quote q cur (n ∷ rest) = ground arith

scan-blank :
    (cur rest : List Char)
    → scan (at false cur) (blank ∷ rest) ≡ flush cur ++ scan (at false []) rest
unfolding scan
scan-blank cur [] = ground arith
scan-blank cur (n ∷ rest) = ground arith

NoSpace-quoted : (t : List Char) → NoSpace true t
NoSpace-quoted [] = tt
NoSpace-quoted (c ∷ t) = (ground arith, NoSpace-quoted t)

scan-quoted :
    (t rest : List Char)
    → scan (at false []) (quoted t ++ blank ∷ rest) ≡ flush t ++ scan (at false []) rest
scan-quoted t rest =
    scan-double_quote false [] ((escape t ++ double_quote ∷ []) ++ blank ∷ rest)
    ∙ ap (scan (at true [])) (append_assoc (escape t) (double_quote ∷ []) (blank ∷ rest))
    ∙ scan-escape true [] t (double_quote ∷ blank ∷ rest) (NoSpace-quoted t)
    ∙ scan-double_quote true t (blank ∷ rest)
    ∙ scan-blank t rest

-- The tokens that are not empty.
abbrev pub tokens_of : List (List Char) → List String
tokens_of [] = []
tokens_of (t ∷ ts) = flush t ++ tokens_of ts

-- A command line of arguments between double quotes, with their quotes and backslashes escaped and
-- blanks between them, is split into just these arguments, whatever characters they have; only
-- empty arguments are lost.
pub tokenize_shell-separated :
    (ts : List (List Char)) → tokenize_shell (separated ts) ≡ tokens_of ts
unfolding tokenize_shell
tokenize_shell-separated [] = unfold scan in refl
tokenize_shell-separated (t ∷ ts) =
    scan-quoted t (separated ts) ∙ ap (λ r. flush t ++ r) (tokenize_shell-separated ts)

-- The escapes count outside double quotes too: an argument without blanks whose quotes and
-- backslashes are escaped is read back as it was, with no quotes round it.
pub tokenize_shell-escape : (t : List Char) → NoSpace false t → tokenize_shell (escape t) ≡ flush t
unfolding tokenize_shell
tokenize_shell-escape t h =
    ap (scan (at false [])) (sym (append-nil (escape t)))
    ∙ scan-escape false [] t [] h
    ∙ unfold scan in refl
