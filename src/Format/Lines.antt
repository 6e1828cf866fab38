-- ===== src/Format/Lines.antt =====
-- Line-oriented documents (src/format/mod.rs): layering is concatenation, and stripping drops the
-- directive lines.
use rescriptum.Prelude.{
  not, ◌&&◌, [], ◌∷◌, ◌++◌, Str, if◌then◌else◌, filter, is_empty, is_some, ends_with, join, lines,
}
use rescriptum.Format.Control.{directive_of}

abbrev newline : Str
newline = 10 ∷ []

unfoldable pub merge_text : Str → Str → Str
merge_text base over =
    (if not (ends_with 10 base) && not (is_empty base) then base ++ newline else base) ++ over

unfoldable pub strip_control_text : Str → Str
unfolding directive_of
strip_control_text text =
    let kept = join newline (filter (λ line. not (is_some (directive_of line))) (lines text)) in
    if not (is_empty kept) && not (ends_with 10 kept) then kept ++ newline else kept
