-- ===== src/Tests/Matching.antt =====
-- Inputs for the facts of a request, the documents, the media server and the archive.
use rescriptum.Envfile.Parse
use rescriptum.Envfile.Parse.{is_valid_key, parse_line}
use rescriptum.Envfile.Rewrite.{render_value}
use rescriptum.Envfile.RoundTrip.{setting, parse_line-render_value}
use rescriptum.Prelude.{
  List, ◌++◌, Option, none, Bytes, take, drop, true, false, [], ◌∷◌, none, some, Str, codes, any,
  is_some, str_eq, is_empty, if◌then◌else◌, ◌||◌, to_ascii_lowercase, ◌≡◌, ◌==◌, refl, arith, ◌≤◌,
}
use rescriptum.Prelude.Result.{ok}
use rescriptum.Prelude.Utf8.{encode, from_utf8_lossy}
use rescriptum.Facts.Labels.{Facts, values, add, matches}
use rescriptum.Facts.Labels.Laws.{values-add, with_value}
use rescriptum.Facts.Labels.Accepts.{accepts, matches-accepts}
use rescriptum.Facts.Glob.{glob}
use rescriptum.Facts.Glob.Wild.{wild, Starless}
use rescriptum.Facts.Glob.Correct.{glob-wild}
use rescriptum.Facts.Query.{percent_decode}
use rescriptum.Facts.Query.Decode.{
  escape, percent_decode_total, percent_decode-escape, percent_decode_panics,
}
use rescriptum.Json.{string, number, Fields, end, field}
use rescriptum.Format.Control.{get}
use rescriptum.Format.Merge.{merge_fields}
use rescriptum.Format.Merge.Laws.{merged_value, get-merge_fields}
use rescriptum.Boot.Media.Range.{parse_range, part}
use rescriptum.Boot.Media.Range.Forms.{Fits, parse_range-Fits}
use rescriptum.Format.Expand.{expand}
use rescriptum.Format.Expand.Pieces.{Piece, literal, hole, printed, Filled, expand-Filled}
use rescriptum.Boot.Media.Segments.{file, slice}
use rescriptum.Boot.Media.Segments.Slice.{read, read-slice}
use rescriptum.Boot.Cpio.{build, member, max_member, starts_with_slash}
use rescriptum.Boot.Cpio.Layout.{Aligned, member-Aligned}

abbrev rack : Str
rack = codes "rack12"

rack-Starless : Starless rack
rack-Starless = ground arith

matched : glob (codes "r*k?2") rack ≡ true
unfolding glob
matched = refl

glob-wild_example : glob (codes "r*k?2") rack ≡ wild (codes "r*k?2") rack
glob-wild_example = glob-wild (codes "r*k?2") rack rack-Starless

abbrev machine_facts : Facts
machine_facts = record { labels = (codes "mac", codes "AA:BB" ∷ []) ∷ []; haystack = codes "aabb" }

matches-accepts_example :
    matches machine_facts (codes "mac") (codes "aa-*")
    ≡ any (accepts (codes "aa-*")) (values machine_facts (codes "mac"))
matches-accepts_example = matches-accepts machine_facts (codes "mac") (codes "aa-*")

values-add_example : values (add machine_facts (codes "MAC") (codes "CC")) (codes "mac") ≡ (
    if is_empty (codes "MAC") || is_empty (codes "CC")
    then values machine_facts (codes "mac")
    else if str_eq (to_ascii_lowercase (codes "MAC")) (to_ascii_lowercase (codes "mac"))
    then with_value (values machine_facts (codes "mac")) (codes "CC")
    else values machine_facts (codes "mac"))
values-add_example = values-add machine_facts (codes "MAC") (codes "mac") (codes "CC")

percent_decode_total_example : is_some (percent_decode (codes "a%2xb")) ≡ true
percent_decode_total_example = percent_decode_total (codes "a%2xb") (ground arith)

percent_decode-escape_example :
    percent_decode (escape (0x41 ∷ 0xc3 ∷ 0xa9 ∷ []))
    ≡ some (from_utf8_lossy (0x41 ∷ 0xc3 ∷ 0xa9 ∷ []))
percent_decode-escape_example = percent_decode-escape (0x41 ∷ 0xc3 ∷ 0xa9 ∷ []) (ground arith)

percent_decode_panics_example : percent_decode (b'%' ∷ b'2' ∷ 0xe9 ∷ []) ≡ none
percent_decode_panics_example =
    percent_decode_panics b'2' 0xe9 [] (ground arith) (ground arith) (ground arith)

abbrev lower_layer : Fields
lower_layer = field (codes "a") (string (codes "x")) (field (codes "b") (number (codes "1")) end)

abbrev upper_layer : Fields
upper_layer = field (codes "b") (number (codes "2")) (field (codes "c") (number (codes "3")) end)

get-merge_fields_example :
    get (codes "b") (merge_fields lower_layer upper_layer)
    ≡ merged_value (get (codes "b") lower_layer) (get (codes "b") upper_layer)
unfolding get
get-merge_fields_example = get-merge_fields (codes "b") lower_layer upper_layer (refl, (refl, tt))

ranged : parse_range (codes "bytes=2-99") 10 ≡ part 2 9
unfolding parse_range
ranged = refl

parse_range-Fits_example : Fits 10 (parse_range (codes "bytes=-3") 10)
parse_range-Fits_example = parse_range-Fits (codes "bytes=-3") 10

named : member (codes "preseed.cfg") 5 1 ≡ ok (build (encode (codes "preseed.cfg")) 5 1)
unfolding member
named = refl

member-Aligned_example :
    Aligned (encode (codes "preseed.cfg")) 5 (build (encode (codes "preseed.cfg")) 5 1)
    × (5 ≤ max_member)
    × ((is_empty (codes "preseed.cfg")
          || starts_with_slash (codes "preseed.cfg")
          || any (λ c. c == 0) (codes "preseed.cfg"))
        ≡ false)
member-Aligned_example = member-Aligned (codes "preseed.cfg") 5 1 named

abbrev host_of : Str → Option Str
host_of key = if str_eq key (codes "host") then some (codes "web1") else none

filled : expand host_of (codes "name {{ host }}.") ≡ ok (codes "name web1.")
unfolding expand
filled = refl

-- a fact that is there, and one that is not
abbrev pieces : List Piece
pieces =
    literal (codes "at ") ∷ hole (codes " host ") ∷ literal (codes ": ") ∷ hole (codes "rack") ∷ []

expand-Filled_example : Filled host_of pieces (expand host_of (printed pieces))
expand-Filled_example = expand-Filled host_of pieces (refl, (refl, (refl, (refl, tt))))

abbrev image : Str → Bytes
image path = 1 ∷ 2 ∷ 3 ∷ 4 ∷ 5 ∷ 6 ∷ []

read-slice_example :
    read image (slice (file (codes "a.iso") 1 4 ∷ []) 1 2)
    ≡ take 2 (drop 1 (read image (file (codes "a.iso") 1 4 ∷ [])))
read-slice_example = read-slice image (codes "a.iso") 1 4 1 2 (ground arith) (ground arith)

abbrev padded : Str
padded = codes "  rack 4"

parse_line-render_value_example :
    parse_line 3 [] (setting (codes "RESCRIPTUM_NOTE") (b'"' ∷ (padded ++ (b'"' ∷ []))))
    ≡ ok ([] ++ (codes "RESCRIPTUM_NOTE", padded) ∷ [])
unfolding render_value Parse.get is_valid_key
parse_line-render_value_example =
    parse_line-render_value 3 [] (codes "RESCRIPTUM_NOTE") padded (b'"' ∷ (padded ++ (b'"' ∷ [])))
      refl refl refl
