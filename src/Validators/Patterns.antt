-- ===== src/Validators/Patterns.antt =====
-- The patterns of src/open_reachout/core/compliance: validators.py and phi.py.
use open_reachout.Base.{String, List, [], ◌∷◌}
use open_reachout.Canonical.{Python}
use open_reachout.Pattern.{Regex, star}
use open_reachout.Pattern.Notation.{
  any_of, opt, plus, up_to, exactly, ◌▸◌, text_start, text_end, dot, txt, one_of, no_space_nor,
  space, digit, edge,
}

module _ (py : Python) where
  -- DEFAULT_FORBIDDEN
  abbrev pub default_forbidden : List Regex
  default_forbidden =
      (edge py
        ▸ txt py "guarantee"
        ▸ opt (txt py "d")
        ▸ edge py
        ▸ up_to 40 dot
        ▸ edge py
        ▸ any_of (txt py "client" ▸ opt (txt py "s")) (
            (txt py "result" ▸ opt (txt py "s"))
            ∷ (txt py "booking" ▸ opt (txt py "s"))
            ∷ txt py "income"
            ∷ txt py "revenue"
            ∷ [])
        ▸ edge py)
      ∷ (edge py
          ▸ txt py "you"
          ▸ any_of (txt py "'") (txt py " wi" ∷ [])
          ▸ txt py "ll "
          ▸ any_of (txt py "get") (txt py "gain" ∷ txt py "earn" ∷ [])
          ▸ edge py
          ▸ up_to 30 dot
          ▸ edge py
          ▸ plus (digit py))
      ∷ (edge py
          ▸ txt py "as "
          ▸ any_of (txt py "we") (txt py "i" ∷ [])
          ▸ txt py " discussed"
          ▸ edge py)
      ∷ (edge py
          ▸ txt py "per our "
          ▸ any_of (txt py "conversation") (txt py "call" ∷ txt py "chat" ∷ [])
          ▸ edge py)
      ∷ (edge py ▸ txt py "following up on our" ▸ edge py)
      ∷ (edge py ▸ txt py "risk" ▸ one_of py "- " ▸ txt py "free" ▸ edge py)
      ∷ []

  -- _FAKE_THREAD, _DECEPTIVE, _URL and _BUMP_PATTERNS
  abbrev pub fake_thread : Regex
  fake_thread =
      text_start
      ▸ star (space py)
      ▸ any_of (txt py "re") ((txt py "fw" ▸ opt (txt py "d")) ∷ [])
      ▸ star (space py)
      ▸ txt py ":"

  abbrev pub deceptive : Regex
  deceptive = any_of (txt py "urgent") (
      txt py "act now"
      ∷ txt py "final notice"
      ∷ (txt py "account " ▸ any_of (txt py "suspended") (txt py "alert" ∷ []))
      ∷ [])

  abbrev pub url : Regex
  url = txt py "http" ▸ opt (txt py "s") ▸ txt py "://" ▸ plus (no_space_nor py ">\")]")

  abbrev pub bump : Regex
  bump =
      any_of
        (txt py "just "
          ▸ any_of (txt py "bumping")
              (txt py "floating" ∷ txt py "checking in" ∷ txt py "circling back" ∷ []))
        ((txt py "bumping this " ▸ any_of (txt py "up") (txt py "to the top" ∷ []))
          ∷ (txt py "any thoughts" ▸ star (space py) ▸ txt py "?" ▸ star (space py) ▸ text_end)
          ∷ [])

  -- _CLAIM_SIGNAL
  abbrev pub claim_signal : Regex
  claim_signal = any_of (txt py "$" ▸ opt (space py) ▸ digit py) (
      (plus (digit py) ▸ opt (space py) ▸ txt py "%")
      ∷ (edge py ▸ txt py "free" ▸ edge py)
      ∷ (edge py
          ▸ txt py "no "
          ▸ any_of (txt py "fee" ▸ opt (txt py "s")) (txt py "charge" ∷ txt py "cost" ∷ [])
          ▸ edge py)
      ∷ (edge py
          ▸ txt py "we "
          ▸ any_of (txt py "offer")
              (txt py "provide" ∷ txt py "charge" ∷ txt py "guarantee" ∷ txt py "include" ∷ [])
          ▸ edge py)
      ∷ (edge py
          ▸ txt py "our "
          ▸ any_of (txt py "platform") (
              txt py "service"
              ∷ txt py "membership"
              ∷ txt py "pricing"
              ∷ txt py "plan"
              ∷ (txt py "account" ▸ opt (txt py "s"))
              ∷ [])
          ▸ edge py)
      ∷ (edge py
          ▸ txt py "per "
          ▸ any_of (txt py "month")
              (txt py "year" ∷ txt py "gig" ∷ txt py "booking" ∷ txt py "session" ∷ [])
          ▸ edge py)
      ∷ [])

  -- PHI_PATTERNS
  abbrev pub phi_patterns : List (String × Regex)
  phi_patterns =
      (
        "dob",
        edge py
            ▸ any_of (txt py "DOB") (txt py "date of birth" ∷ [])
            ▸ edge py
            ▸ up_to 24 dot
            ▸ digit py,
      )
      ∷ (
        "record_id",
        edge py
            ▸ any_of (txt py "MRN") (
                (txt py "medical record " ▸ any_of (txt py "number") (txt py "#" ∷ []))
                ∷ txt py "member id"
                ∷ (txt py "policy " ▸ any_of (txt py "number") (txt py "#" ∷ []))
                ∷ [])
            ▸ edge py
            ▸ up_to 16 dot
            ▸ exactly 4 alnum
            ▸ star alnum,
      )
      ∷ (
        "icd_code",
        edge py
            ▸ one_of py "ABCDEFGHIJKLMNOPQRSTVWXYZ"
            ▸ exactly 2 (digit py)
            ▸ txt py "."
            ▸ digit py
            ▸ up_to 2 (digit py)
            ▸ edge py,
      )
      ∷ (
        "diagnosis",
        edge py
            ▸ txt py "diagnos"
            ▸ any_of (txt py "ed") (txt py "is of" ∷ [])
            ▸ edge py
            ▸ up_to 40 dot,
      )
      ∷ (
        "care_detail",
        edge py
            ▸ any_of (txt py "session notes") (
                txt py "treatment plan for"
                ∷ txt py "intake notes"
                ∷ txt py "presenting problem"
                ∷ [])
            ▸ edge py,
      )
      ∷ (
        "care_relationship",
        edge py
            ▸ txt py "my "
            ▸ any_of (txt py "patient") (txt py "client" ∷ [])
            ▸ edge py
            ▸ up_to 40 dot,
      )
      ∷ []
    where
      -- [A-Za-z0-9-]
      alnum : Regex
      alnum = one_of py "ABCDEFGHIJKLMNOPQRSTUVWXYZabcdefghijklmnopqrstuvwxyz0123456789-"
