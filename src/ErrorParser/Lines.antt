-- ===== src/ErrorParser/Lines.antt =====
-- error_parser.py: the lines of error.log. How the text of a line is cut is for its regular expressions to
-- say: a line is what they find.
use Prim.Native.String.{◌++◌ as append}
use provider_health_daemon.Base.{
  ℕ, String, Option, none, some, List, [], ◌∷◌, if◌then◌else◌, contains, before, ◌==◌,
}
use provider_health_daemon.ErrorParser.{Reader, extract_retry_after_seconds}
use provider_health_daemon.ErrorParser.Parsing.{
  Parsed, parse_error, postprocess, hint_or, decimal_text,
}

-- `[CHAT] [provider/model] [status]: body`, `[COMBO] Model model_id failed … {"status":status}`, the
-- `provider [status]: [status]: body` of a failed provider, or anything else.
pub data LogLine : Type 0 where
  chat : (provider model : String) → ℕ → String → LogLine
  combo : String → ℕ → LogLine
  failed : String → ℕ → String → LogLine
  other_line : LogLine

-- `_COMBO_STATUS_BODY.get(status, …)`
abbrev pub combo_bodies : List (ℕ × String)
combo_bodies =
    (402, "Monthly request limit exceeded. Account has reached its monthly quota.")
    ∷ (404, "model not found")
    ∷ (410, "model has been deprecated")
    ∷ (429, "")
    ∷ (500, "Internal Server Error")
    ∷ (502, "Internal Server Error")
    ∷ (503, "Internal Server Error")
    ∷ []

unfoldable pub combo_body_in : List (ℕ × String) → ℕ → String
combo_body_in [] status = append "{\"status\":" (append (decimal_text status) "}")
combo_body_in ((n, body) ∷ rest) status = if n == status then body else combo_body_in rest status

abbrev with_provider : String → Parsed → Parsed
with_provider provider p = record p { provider_hint = hint_or p.provider_hint (some provider) }

abbrev with_model : String → Parsed → Parsed
with_model model p = record p { model_hint = hint_or p.model_hint (some model) }

-- The error of a line, with the hints that are filled in.
abbrev pub reparsed : Reader → ℕ → ℕ → String → (Parsed → Parsed) → Parsed
reparsed r now status body fill =
    postprocess (extract_retry_after_seconds r now body) (fill (parse_error r now status body))

abbrev combo_hints : String → Parsed → Parsed
combo_hints model_id p =
    let named = with_provider (before 47 model_id) p in
    if contains model_id "/" then with_model model_id named else named

-- `parse_log_line` and `_parse_warning_line`
unfoldable pub parse_log_line : Reader → ℕ → LogLine → Option Parsed
parse_log_line r now (chat provider model status body) =
    some (reparsed r now status body (λ p. with_model model (with_provider provider p)))
parse_log_line r now (combo model_id status) =
    some (reparsed r now status (combo_body_in combo_bodies status) (combo_hints model_id))
parse_log_line r now (failed provider status body) =
    some (reparsed r now status body (with_provider provider))
parse_log_line r now other_line = none
