-- ===== src/Html/Tests.antt =====
-- Runs of `sanitize_html` on the texts of the unit tests of core/src/utils.rs.
use dais.Base.{Text, bytes, length, ◌≡◌, refl, ◌<◌, suc, arith, none, ◌≢◌}
use dais.Html.{sanitize_html, start_of, sanitize_loop}
use dais.Html.Pieces.{IsSafe}
use dais.Html.Safety.{sanitize_html-IsSafe}
use dais.Html.Rounds.{sanitize_loop-Returns}

abbrev script : Text
script = bytes "<p onclick=\"x\">a<script>alert(1)</script>b</p><a href='javascript:x'>c</a>"

run_script : sanitize_html script ≡ bytes "<p>ab</p>c"
unfolding bytes sanitize_html dais.Html.finish sanitize_loop dais.Html.sanitize_round
    dais.Html.skip_dropped dais.Base.cut_at dais.Html.read_tag dais.Html.on_tag dais.Html.one_of
    dais.Base.text_eq dais.Base.to_ascii_lowercase dais.Html.html_tag_name dais.Base.take_until
    dais.Base.trim_start dais.Base.trim_start_matches dais.Html.tag_is_closing dais.Base.starts_with
    dais.Base.find_lower dais.Base.replace dais.Base.strip_prefix dais.Base.is_blank
    dais.Base.skip_white dais.Base.skip_whites dais.Base.trim dais.Base.trim_end
    dais.Html.after_href dais.Html.allowed_html_tag dais.Html.attribute_value dais.Html.checked_href
    dais.Html.close_tag dais.Html.closed dais.Html.escape_html_attr dais.Html.front
    dais.Html.href_value dais.Html.is_safe_scheme dais.Html.linked dais.Html.round_from
    dais.Html.safe_href dais.Html.tag_end dais.Html.tag_start
run_script = refl

sanitize_html-IsSafe_example : IsSafe (sanitize_html script)
sanitize_html-IsSafe_example = sanitize_html-IsSafe script

sanitize_loop-Returns_example : sanitize_loop (suc (length script)) (start_of script) ≢ none
sanitize_loop-Returns_example =
    sanitize_loop-Returns (suc (length script)) (start_of script) (omega arith)
