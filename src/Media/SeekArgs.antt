-- ===== src/Media/SeekArgs.antt =====
-- media/shell_source.go, injectSeek. The loop is written in two halves: `clean_until` runs while no
-- `-i` was kept (`inputIdx < 0`), and from the first one on every argument is kept.
pub mod Idempotent
use Prim.Native.String.{String}
use gotgcall.Base.{Bool, List, [], false, if◌then◌else◌, not, text_eq, true, ◌&&◌, ◌++◌, ◌∷◌}

-- `i+1 < len(args)`, where `rest` are the arguments behind the i-th.
abbrev pub has_next : List String → Bool
has_next [] = false
has_next (a ∷ rest) = true

abbrev pub keep_before : String → List String × List String → List String × List String
keep_before a r = (a ∷ r.0, r.1)

-- `cleaned` up to the first `-i`, and from it on. The second part is empty where there is no `-i`.
unfoldable pub clean_until : Bool → List String → List String × List String
clean_until skip [] = ([], [])
clean_until skip (a ∷ rest) =
    let drops = text_eq a "-ss" && has_next rest in
    let r = clean_until (not skip && drops) rest in
    if skip
    then r
    else if drops
    then r
    else if text_eq a "-i"
    then ([], a ∷ rest)
    else keep_before a r

-- `out`, for what the loop leaves.
abbrev pub seek_before : String → List String × List String → List String
seek_before offset r = if has_next r.1 then r.0 ++ "-ss" ∷ offset ∷ r.1 else "-ss" ∷ offset ∷ r.0

-- injectSeek, with the offset as it is printed.
unfoldable pub inject_seek : String → List String → List String
unfolding clean_until
inject_seek offset args = seek_before offset (clean_until false args)
