-- ===== src/Secrets/Redact.antt =====
-- `redact` of app/dal/db/secrets.py: known credentials and PEM private keys in a text.
use network_gateway_api.Prelude.{◌≡◌, refl, List, [], ◌∷◌, String, leb, if◌then◌else◌}
use network_gateway_api.Value.{among}
use network_gateway_api.Text.{count, take, replace}
use network_gateway_api.Secrets.Pem.{redact_pem}

-- `sorted(secrets, key=len, reverse=True)` of a set, whose items come in some order.
abbrev pub insert_longest : String → List String → List String
insert_longest s [] = s ∷ []
insert_longest s (t ∷ ts) = if leb (count t) (count s) then s ∷ t ∷ ts else t ∷ insert_longest s ts

abbrev pub longest_first : List String → List String
longest_first [] = []
longest_first (s ∷ ss) =
    let rest = longest_first ss in if among s rest then rest else insert_longest s rest

unfoldable pub redact_all : List String → String → String
unfolding replace
redact_all [] text = text
redact_all (secret ∷ secrets) text = redact_all secrets (replace secret "[redacted]" text)

-- `redact` of a text
unfoldable pub redact : String → List String → String
unfolding redact_all redact_pem
redact text secrets = take 2000 (redact_pem (redact_all (longest_first secrets) text))

redacted_once : redact "pass and password" ("pass" ∷ "password" ∷ []) ≡ "[redacted] and [redacted]"
unfolding redact
redacted_once = refl
