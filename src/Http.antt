-- ===== src/Http.antt =====
-- The request that crates/whirl-worker/src/http.rs writes for `curl` to read: `quoted`, `options`,
-- `configuration` and `body_configuration`.
use whirl.Prelude.{ℕ, ◌==◌, [], ◌∷◌, ◌++◌, Option, none, some, Text, codes, if◌then◌else◌}
use whirl.Prelude.Decimal.{decimal}
pub mod Quoted

abbrev pub timeout_seconds : ℕ
timeout_seconds = 120

abbrev pub user_agent : Text
user_agent =
    codes "Mozilla/5.0 (Macintosh; Intel Mac OS X 10_15_7) AppleWebKit/537.36 "
    ++ codes "(KHTML, like Gecko) Chrome/120.0.0.0 Safari/537.36"

pub record HttpRequest : Type 0 where
  pub url : Text
  pub key : Option Text

abbrev newline : ℕ
newline = 10

abbrev carriage_return : ℕ
carriage_return = 13

-- What one character becomes.
unfoldable pub escaped : ℕ → Text
escaped c =
    if c == b'\\'
    then b'\\' ∷ b'\\' ∷ []
    else if c == b'"'
    then b'\\' ∷ b'"' ∷ []
    else if c == newline
    then b'\\' ∷ b'n' ∷ []
    else if c == carriage_return
    then b'\\' ∷ b'r' ∷ []
    else c ∷ []

unfoldable pub escapes : Text → Text
unfolding escaped
escapes [] = []
escapes (c ∷ value) = escaped c ++ escapes value

unfoldable pub quoted : Text → Text
unfolding escapes
quoted value = b'"' ∷ escapes value ++ b'"' ∷ []

-- One option and the end of its line.
abbrev pub option_line : Text → Text → Text
option_line name value = name ++ codes " = " ++ value ++ newline ∷ []

unfoldable pub key_line : Option Text → Text
unfolding quoted
key_line none = []
key_line (some key) = option_line (codes "header") (quoted (codes "X-API-Key: " ++ key))

unfoldable pub options : HttpRequest → Text
unfolding quoted key_line decimal
options request =
    codes "silent"
    ++ newline ∷ codes "show-error"
    ++ newline ∷ option_line (codes "max-time") (decimal timeout_seconds)
    ++ option_line (codes "url") (quoted request.url)
    ++ option_line (codes "user-agent") (quoted user_agent)
    ++ key_line request.key

abbrev pub write_out_line : Text
write_out_line = codes "write-out = " ++ b'"' ∷ b'\\' ∷ codes "n%{http_code}" ++ b'"' ∷ newline ∷ []

unfoldable pub configuration : HttpRequest → Text
unfolding options
configuration request = options request ++ write_out_line

abbrev pub body_configuration : HttpRequest → Text
body_configuration request = options request
