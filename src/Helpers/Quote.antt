-- ===== src/Helpers/Quote.antt =====
-- `pqQuoteLiteral` of postgresql/helpers.go.
pub mod Literal
use terraform_provider_postg.Base.{String}
use terraform_provider_postg.Text.{replace_char}

-- Backslashes are doubled first, then single quotes.
unfoldable pub pq_quote_literal : String → String
unfolding replace_char
pq_quote_literal in_text = replace_char b'\'' "''" (replace_char b'\\' "\\\\" in_text)
