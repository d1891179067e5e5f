-- ===== src/Markers/Tests.antt =====
-- Blocks of small texts.
use nx_panel.Base.{
  ◌≡◌, refl, [], ◌∷◌, ◌++◌, nat_eq, text_eq, text_beq, all, Text, codes, trim_left, trim_space,
}
use nx_panel.Base.Result.{ok, err}
use nx_panel.Markers.{
  has_prefix, index, index_byte, count_from, count, is_name_byte, is_marker_name, marker_start,
  marker_end, last, ensure_trailing_newline, is_newline_at, line_start_from, marker_body_end,
  block_span, replace_marker_block, extract_marker_block, new_block, insert_at, inject_marker_after,
  existing_optional_anchor, optional_marker_anchor, ensure_marker_block, apply_marker_patches,
  apply_optional_marker_patches, note_marker, note_markers, validate_required_markers, missing,
  duplicated, invalid_name,
}
use nx_panel.Markers.Frame.{IsClean}
use nx_panel.Markers.Lens.{
  extract_marker_block-replace_marker_block, replace_marker_block-replace_marker_block,
  replace_marker_block-extract_marker_block,
}
use nx_panel.Markers.Inject.{extract_marker_block-ensure_marker_block}
use nx_panel.Markers.Required.{missing_of, duplicated_of, is_single, validate_required_markers_lem}

opened : Unit {0}
unfolding has_prefix index index_byte count_from count is_name_byte is_marker_name marker_start
    marker_end last ensure_trailing_newline is_newline_at line_start_from marker_body_end block_span
    replace_marker_block extract_marker_block new_block insert_at inject_marker_after
    existing_optional_anchor optional_marker_anchor ensure_marker_block apply_marker_patches
    apply_optional_marker_patches note_marker note_markers validate_required_markers text_beq
    trim_space trim_left
opened = tt

abbrev site : Text
site = codes "server {\n  #NXPANEL-A-START x\n  old;\n  #NXPANEL-A-END\n}\n"

abbrev changed : Text
changed = codes "server {\n  #NXPANEL-A-START x\nnew;\n  #NXPANEL-A-END\n}\n"

abbrev name_a : Text
name_a = codes "A"

replace_tests :
    (replace_marker_block site name_a (codes "new;") ≡ ok changed)
    × (extract_marker_block site name_a ≡ ok (codes "  old;\n"))
    × (replace_marker_block site (codes "a") [] ≡ err invalid_name)
    × (replace_marker_block site (codes "B") [] ≡ err missing)
    × (replace_marker_block (site ++ site) name_a [] ≡ err duplicated)
unfolding opened
replace_tests = (refl, refl, refl, refl, refl)

-- Without a newline after the anchor, the new block comes before the anchor's end token.
abbrev no_last_line : Text
no_last_line = codes "#NXPANEL-LISTEN-START\n#NXPANEL-LISTEN-END"

inject_test :
    ensure_marker_block no_last_line (codes "SSL") (codes "on;")
    ≡ ok (
        codes
          "#NXPANEL-LISTEN-START\n\n    #NXPANEL-SSL-START\non;\n    #NXPANEL-SSL-END\n#NXPANEL-LISTEN-END")
unfolding opened
inject_test = refl

IsClean-new : IsClean name_a (codes "new;")
unfolding opened
IsClean-new = record { starts = refl; ends = refl }

extract_marker_block-replace_marker_block_example :
    extract_marker_block changed name_a ≡ ok (ensure_trailing_newline (codes "new;"))
unfolding opened
extract_marker_block-replace_marker_block_example =
    extract_marker_block-replace_marker_block site name_a (codes "new;") refl IsClean-new

replace_marker_block-replace_marker_block_example :
    (last : Text) × (replace_marker_block site name_a (codes "c;") ≡ ok last)
    × (replace_marker_block changed name_a (codes "c;") ≡ ok last)
unfolding opened
replace_marker_block-replace_marker_block_example =
    replace_marker_block-replace_marker_block site name_a (codes "new;") (codes "c;") refl
      IsClean-new

replace_marker_block-extract_marker_block_example :
    replace_marker_block changed name_a (codes "new;" ++ (10 ∷ [])) ≡ ok changed
unfolding opened
replace_marker_block-extract_marker_block_example =
    replace_marker_block-extract_marker_block changed name_a (codes "new;") refl

abbrev listening : Text
listening = codes "#NXPANEL-LISTEN-START\n#NXPANEL-LISTEN-END\n}"

abbrev with_ssl : Text
with_ssl =
    codes
      "#NXPANEL-LISTEN-START\n#NXPANEL-LISTEN-END\n\n    #NXPANEL-SSL-START\non;\n    #NXPANEL-SSL-END\n}"

extract_marker_block-ensure_marker_block_example :
    extract_marker_block with_ssl (codes "SSL") ≡ ok (ensure_trailing_newline (codes "on;"))
unfolding opened
extract_marker_block-ensure_marker_block_example =
    extract_marker_block-ensure_marker_block listening (codes "SSL") (codes "on;") refl
      (record { starts = refl; ends = refl })

validate_required_markers_lem_example :
    ((validate_required_markers listening (name_a ∷ [])).valid
      ≡ all (λ name. is_single listening name) (name_a ∷ []))
    × ((validate_required_markers listening (name_a ∷ [])).missing
        ≡ missing_of listening (name_a ∷ []))
    × ((validate_required_markers listening (name_a ∷ [])).duplicated
        ≡ duplicated_of listening (name_a ∷ []))
validate_required_markers_lem_example = validate_required_markers_lem listening (name_a ∷ [])
