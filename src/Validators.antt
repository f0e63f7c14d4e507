-- ===== src/Validators.antt =====
-- The deterministic checks of a draft (src/open_reachout/core/compliance/validators.py, phi.py and
-- regimes.py). The registry of regimes is a parameter, since plugins fill it: a regime's name stands
-- for its extra checks, and an unknown name raises. A tenant's own patterns are parsed already.
pub mod Patterns
pub mod Clean
pub mod Passing
pub mod Pass
use Prim.Native.Char.{Char, nul}
use open_reachout.Base.{
  ℕ, ◌+◌, String, Bool, true, false, not, ◌&&◌, ◌||◌, Option, none, some, List, [], ◌∷◌, ◌++◌,
  Result, ok, err, key_error, value_error, string_eq, ◌==◌, if◌then◌else◌, ltb, leb, is_char,
  append, any_char, is_empty, strip_left, strip_right, starts_with, is_in, find_text, take,
}
use open_reachout.Canonical.{Python}
use open_reachout.Gatekeeper.{
  Checks, Draft, Finding, Violation, Note, missing_physical_address, missing_unsubscribe,
  fake_thread_subject, deceptive_subject, too_long, forbidden_claim, unregistered_claim,
  phi_suspected, url_not_allowlisted, bump_theater, missing_sender_identity, note, subject_note,
  words_note,
}
use open_reachout.Pattern.{Regex, Match, find, search, begins, find_all, group}
use open_reachout.Validators.Patterns.{
  default_forbidden, fake_thread, deceptive, url, bump, claim_signal, phi_patterns,
}

pub record ValidatorContext : Type 0 where
  pub physical_address : String
  pub unsubscribe_text : String
  pub sender_identity : String
  pub allowed_url_prefixes : List String
  pub max_words : ℕ
  pub forbidden_patterns : List Regex
  pub claim_mode : String
  pub approved_claims : List String
  pub claim_registry_version : String
  pub sector_sensitivity : String
  pub compliance_regime : String

-- A regime's check, and get_regime(name).extra_validators
abbrev pub RegimeCheck : Type 0
RegimeCheck = Draft → ValidatorContext → List Finding

abbrev pub Regimes : Type 0
Regimes = String → Option (List RegimeCheck)

-- register_regime: a name that is taken is refused.
unfoldable pub register_regime : String → List RegimeCheck → Regimes → Result Regimes
register_regime name checks regimes = elim (regimes name) [
  | some other ↦ err value_error
  | none ↦ ok (λ n. if name == n then some checks else regimes n)
]

-- [f(x) for x in xs] and any(p(x) for x in xs)
abbrev pub each : {A B : Type 0} → (A → B) → List A → List B
each f [] = []
each f (x ∷ xs) = f x ∷ each f xs

abbrev pub any_of : {A : Type 0} → (A → Bool) → List A → Bool
any_of p [] = false
any_of p (x ∷ xs) = p x || any_of p xs

abbrev pub group_of : Option Match → List String
group_of none = []
group_of (some m) = group m ∷ []

abbrev pub hits_of : List Regex → String → List String
hits_of [] content = []
hits_of (r ∷ rs) content = group_of (find r content) ++ hits_of rs content

abbrev pub names_of : List (String × Regex) → String → List String
names_of [] content = []
names_of ((name, r) ∷ rs) content =
    (if search r content then name ∷ [] else []) ++ names_of rs content

-- len(s.split()), where `inside` tells whether a word goes on
unfoldable pub count_words : (Char → Bool) → Bool → String → ℕ
count_words space inside String.[] = 0
count_words space inside (String.◌∷◌ c s) =
    (if space c || inside then 0 else 1) + count_words space (not (space c)) s

abbrev pub is_sentence_end : Char → Bool
is_sentence_end c = is_char b'.' c || (is_char b'!' c || (is_char b'?' c || is_char 10 c))

abbrev pub prepend : Char → List String → List String
prepend c [] = String.◌∷◌ c String.[] ∷ []
prepend c (s ∷ rest) = String.◌∷◌ c s ∷ rest

-- _SENTENCE_SPLIT.split(content), where `gap` tells whether a separator goes on
unfoldable pub sentences : Bool → String → List String
sentences gap String.[] = String.[] ∷ []
sentences gap (String.◌∷◌ c s) =
    let rest = sentences (is_sentence_end c) s in
    if is_sentence_end c then (if gap then rest else String.[] ∷ rest) else prepend c rest

abbrev pub flag : Bool → Violation → Note → List Finding
flag b code detail = if b then record { code = code; detail = detail } ∷ [] else []

abbrev pub report : Violation → List String → List Finding
report code hits = each (λ s. record { code = code; detail = note s }) hits

module _ (py : Python) where
  unfoldable pub strip : String → String
  strip s = strip_right py.is_space (strip_left py.is_space s)

  -- forbidden_hits
  unfoldable pub forbidden_hits : String → List Regex → List String
  forbidden_hits content extra = hits_of (default_forbidden py ++ extra) content

  -- phi_hits
  unfoldable pub phi_hits : String → List String
  phi_hits content = names_of (phi_patterns py) content

  abbrev pub has_phrase : List String → String → Bool
  has_phrase approved sentence =
      any_of (λ phrase. is_in (py.lower (strip phrase)) (py.lower sentence)) approved

  -- A claim-like sentence without an approved phrase
  abbrev pub is_unregistered : List String → String → Bool
  is_unregistered approved sentence =
      search (claim_signal py) sentence && not (has_phrase approved sentence)

  abbrev pub flagged : List String → List String → List String
  flagged approved [] = []
  flagged approved (sentence ∷ rest) =
      (if is_unregistered approved sentence then take 80 (strip sentence) ∷ [] else [])
      ++ flagged approved rest

  unfoldable pub unregistered_claims : String → List String → List String
  unregistered_claims content approved = flagged approved (sentences false content)

  abbrev pub is_allowed_url : List String → String → Bool
  is_allowed_url prefixes u = any_of (λ p. starts_with (py.lower p) (py.lower u)) prefixes

  abbrev pub foreign_urls : List String → List String → List String
  foreign_urls prefixes [] = []
  foreign_urls prefixes (u ∷ us) =
      (if is_allowed_url prefixes u then [] else u ∷ []) ++ foreign_urls prefixes us

  -- The part of a body before the unsubscribe line
  abbrev pub cut_at : String → Option ℕ → String
  cut_at body none = body
  cut_at body (some n) = take n body

  unfoldable pub screened : String → ValidatorContext → String
  screened body ctx =
      cut_at body (find_text (py.lower (strip ctx.unsubscribe_text)) (py.lower body))

  -- f"{subject}\n{body}"
  abbrev pub content_of : String → String → String
  content_of subject body = append subject (append "\n" body)

  abbrev pub lacks_identity : String → ValidatorContext → Bool
  lacks_identity body ctx =
      not (is_empty (strip ctx.sender_identity)) && not (is_in (strip ctx.sender_identity) body)

  -- The checks that always run, in the order of the code
  abbrev pub core_findings : String → String → ℕ → ValidatorContext → List Finding
  core_findings subject body step_index ctx =
      flag (not (is_in (strip ctx.physical_address) body)) missing_physical_address
        (note "CAN-SPAM physical address absent")
      ++ (flag (not (is_in (py.lower (strip ctx.unsubscribe_text)) (py.lower body)))
            missing_unsubscribe (note "unsubscribe text absent")
          ++ (flag (lacks_identity body ctx) missing_sender_identity
                (note "sender identity absent from body")
              ++ (flag (begins (fake_thread py) subject) fake_thread_subject (subject_note subject)
                  ++ (flag (search (deceptive py) subject) deceptive_subject (subject_note subject)
                      ++ (flag (ltb ctx.max_words (count_words py.is_space false body)) too_long
                            (words_note (count_words py.is_space false body) ctx.max_words)
                          ++ (report forbidden_claim
                                (forbidden_hits (content_of subject body) ctx.forbidden_patterns)
                              ++ (report url_not_allowlisted
                                    (foreign_urls ctx.allowed_url_prefixes (find_all (url py) body))
                                  ++ flag (leb 1 step_index && search (bump py) body) bump_theater
                                      (note "content-free follow-up"))))))))

  abbrev pub phi_findings : String → String → ValidatorContext → List Finding
  phi_findings subject body ctx =
      if ctx.sector_sensitivity == "none"
      then []
      else report phi_suspected (phi_hits (content_of subject body))

  abbrev pub claim_findings : String → ValidatorContext → List Finding
  claim_findings body ctx =
      if ctx.claim_mode == "allowlist"
      then report unregistered_claim (unregistered_claims (screened body ctx) ctx.approved_claims)
      else []

  module _ (regimes : Regimes) where
    abbrev pub run_checks : List RegimeCheck → Draft → ValidatorContext → List Finding
    run_checks [] draft ctx = []
    run_checks (check ∷ checks) draft ctx = check draft ctx ++ run_checks checks draft ctx

    abbrev pub checks_findings :
        Option (List RegimeCheck) → Draft → ValidatorContext → Result (List Finding)
    checks_findings none draft ctx = err key_error
    checks_findings (some checks) draft ctx = ok (run_checks checks draft ctx)

    abbrev pub regime_findings : Draft → ValidatorContext → Result (List Finding)
    regime_findings draft ctx = checks_findings (regimes ctx.compliance_regime) draft ctx

    abbrev pub with_extras :
        List Finding → Result (List Finding) → List Finding → Result (List Finding)
    with_extras before (err e) behind = err e
    with_extras before (ok extras) behind = ok (before ++ (extras ++ behind))

    abbrev pub checked : String → String → Draft → ValidatorContext → Result (List Finding)
    checked subject body draft ctx =
        with_extras
          (core_findings subject body draft.step_index ctx ++ phi_findings subject body ctx)
          (if ctx.compliance_regime == "us_can_spam" then ok [] else regime_findings draft ctx)
          (claim_findings body ctx)

    unfoldable pub validate : Draft → ValidatorContext → Result (List Finding)
    validate draft ctx =
        let subject = strip draft.subject in
        let body = strip draft.body in
        if is_empty subject || is_empty body
        then ok (record { code = Violation.empty; detail = note "empty subject or body" } ∷ [])
        else checked subject body draft ctx

-- content_hash: of the subject and the body with a null character between
unfoldable pub content_hash : Python → Draft → String
content_hash py draft = py.sha256 (append draft.subject (String.◌∷◌ nul draft.body))

-- What the gatekeeper calls
unfoldable pub checks_of : Python → Regimes → Checks ValidatorContext
unfolding content_hash validate
checks_of py regimes = record { content_hash = content_hash py; validate = validate py regimes }
