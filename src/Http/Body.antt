-- ===== src/Http/Body.antt =====
-- http.rs: what `handle_remediate` reads of the body of a request.
use first_fork.Common.{
  ℕ, zero, suc, ◌≤◌, ◌≡◌, refl, Option, List, [], ◌∷◌, String, length, Result, ok, arith,
}
use first_fork.Http.Bearer.{as_bytes}
use first_fork.Http.Server.{Request, Remediation}

abbrev pub take {ℓ} : {A : Type ℓ} → ℕ → List A → List A
take zero xs = []
take (suc n) [] = []
take (suc n) (x ∷ xs) = x ∷ take n xs

pub take-all {ℓ} : {A : Type ℓ} (n : ℕ) (xs : List A) → length xs ≤ n → take n xs ≡ xs
take-all zero [] h = refl
take-all zero (x ∷ xs) h = absurd (omega (arith, h))
take-all (suc n) [] h = refl
take-all (suc n) (x ∷ xs) h = rw (take-all n xs (omega (arith, h))) refl

-- `as_reader().take(4096)`: what is longer is cut off.
abbrev pub body_limit : ℕ
body_limit = 4096

-- A request as it was sent.
pub record Sent : Type 0 where
  pub method : String
  pub url : String
  pub auth_header : String
  pub body : String

module _ (parse : List ℕ → Option Remediation) where
  -- `parse` is what `get` and `as_str` give on the JSON value that serde reads in the bytes, if it is one.
  unfoldable pub read_body : List ℕ → Result (Option Remediation) String
  read_body bytes = ok (parse (take body_limit bytes))

  unfoldable pub read_request : Sent → Request
  unfolding read_body
  read_request sent = record {
    method = sent.method;
    url = sent.url;
    auth_header = sent.auth_header;
    body = read_body (as_bytes sent.body);
  }
