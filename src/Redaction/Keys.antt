-- ===== src/Redaction/Keys.antt =====
-- `_secret_key` of app/connectors/redaction.py.
use Prim.Native.Char.{code}
use user_token_management_ap.Prelude.{
  ℕ, ◌+◌, String, Bool, true, false, not, ◌&&◌, ◌||◌, List, [], ◌∷◌, ◌++◌, leb, ◌==◌, if◌then◌else◌,
  select, any,
}

-- The code points of a text.
abbrev pub codes : String → List ℕ
codes String.[] = []
codes (String.◌∷◌ c s) = code c ∷ codes s

-- What `casefold` makes of the characters beyond ASCII that fold to ASCII letters alone.
abbrev special_folds : List (ℕ × List ℕ)
special_folds =
    (223, b's' ∷ b's' ∷ [])
    ∷ (383, b's' ∷ [])
    ∷ (7838, b's' ∷ b's' ∷ [])
    ∷ (8490, b'k' ∷ [])
    ∷ (64256, b'f' ∷ b'f' ∷ [])
    ∷ (64257, b'f' ∷ b'i' ∷ [])
    ∷ (64258, b'f' ∷ b'l' ∷ [])
    ∷ (64259, b'f' ∷ b'f' ∷ b'i' ∷ [])
    ∷ (64260, b'f' ∷ b'f' ∷ b'l' ∷ [])
    ∷ (64261, b's' ∷ b't' ∷ [])
    ∷ (64262, b's' ∷ b't' ∷ [])
    ∷ []

abbrev lookup_fold : ℕ → List (ℕ × List ℕ) → List ℕ
lookup_fold c [] = c ∷ []
lookup_fold c ((d, folded) ∷ fs) = if c == d then folded else lookup_fold c fs

-- `casefold` of one character, as far as the names below can tell: any other character folds to text
-- with a character beyond ASCII next to no beginning of a name, or to itself, and stays as it is here.
unfoldable pub fold_code : ℕ → List ℕ
fold_code c = if leb 65 c && leb c 90 then (c + 32) ∷ [] else lookup_fold c special_folds

-- `text.casefold()`
abbrev pub fold_codes : List ℕ → List ℕ
unfolding fold_code
fold_codes [] = []
fold_codes (c ∷ cs) = fold_code c ++ fold_codes cs

-- The characters that `\s` matches.
is_space : ℕ → Bool
is_space c =
    leb 9 c && leb c 13
    || leb 28 c && leb c 32
    || c == 133
    || c == 160
    || c == 5760
    || leb 8192 c && leb c 8202
    || c == 8232
    || c == 8233
    || c == 8239
    || c == 8287
    || c == 12288

is_separator : ℕ → Bool
unfolding is_space
is_separator c = c == b'-' || c == b'_' || is_space c

unfoldable pub same_codes : List ℕ → List ℕ → Bool
same_codes [] [] = true
same_codes [] (b ∷ bs) = false
same_codes (a ∷ as') [] = false
same_codes (a ∷ as') (b ∷ bs) = a == b && same_codes as' bs

-- `text.endswith(suffix)`
unfoldable pub ends_with : List ℕ → List ℕ → Bool
unfolding same_codes
ends_with suffix [] = same_codes [] suffix
ends_with suffix (c ∷ cs) = same_codes (c ∷ cs) suffix || ends_with suffix cs

abbrev exact_names : List String
exact_names =
    "token" ∷ "accesstoken" ∷ "authtoken" ∷ "cookie" ∷ "password" ∷ "passwd" ∷ "pwd" ∷ "secret"
    ∷ "secretkey" ∷ "apikey" ∷ "accesskey" ∷ "clientsecret" ∷ "authorization" ∷ "idtoken"
    ∷ "privatekey" ∷ "refreshtoken" ∷ "sessioncookie" ∷ "sessiontoken" ∷ "setcookie" ∷ "credential"
    ∷ "credentials" ∷ "dsn" ∷ "ciphertext" ∷ []

abbrev suffixes : List String
suffixes =
    "token" ∷ "secret" ∷ "password" ∷ "credential" ∷ "cookie" ∷ "apikey" ∷ "accesskey"
    ∷ "privatekey" ∷ []

unfoldable pub folded_key : String → List ℕ
unfolding fold_code is_separator
folded_key key = select (λ c. not (is_separator c)) (fold_codes (codes key))

unfoldable pub secret_key : String → Bool
unfolding same_codes ends_with folded_key
secret_key key =
    any (λ name. same_codes (folded_key key) (codes name)) exact_names
    || any (λ suffix. ends_with (codes suffix) (folded_key key)) suffixes
