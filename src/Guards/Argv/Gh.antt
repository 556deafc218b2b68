-- ===== src/Guards/Argv/Gh.antt =====
-- The calls of gh that pass (src/assistant/bridge/hooks.py).
use xone_assistant.Prelude.{
  starts_with, ℕ, Bool, true, false, Option, none, some, List, [], ◌∷◌, ◌++◌, ◌≡◌, ◌↔◌, refl, sym,
  ap, ◌∙◌, if◌then◌else◌, Text, codes, text_eq, text_eq_sound, text_eq_refl, inl, inr, Bool-cases,
  All,
}
use mathlib.Core.Path.{subst}
use xone_assistant.Patterns.{Charset, literal, many, seq}
use xone_assistant.Patterns.Meaning.{MatchesAt, last_of}
use xone_assistant.Patterns.Meets.{re_match_iff}
use xone_assistant.Patterns.Literal.{literal_text, literal_there}
use xone_assistant.Guards.{
  not_gh, only_auth_status, subcommand_not_allowed, several_endpoints, endpoint_not_allowed,
  header_missing, header_not_allowed, flag_not_allowed,
}
use xone_assistant.Guards.Argv.{
  is_endpoint, endpoint, is_dot_char, api_args, auth_args, validate_gh_argv,
}

module _ (cs : Charset) (lower : Text → Text) where
  -- Headers with what gh accepts, and one endpoint; the flag says that it is there already.
  pub data ApiCall : Bool → List Text → Type 0 where
    done : ApiCall true []
    at_endpoint :
        (tok : Text) (rest : List Text)
        → starts_with (codes "/") tok ≡ true
        → is_endpoint cs tok ≡ true
        → ApiCall true rest
        → ApiCall false (tok ∷ rest)
    at_header :
        (saw : Bool) (value : Text) (rest : List Text)
        → starts_with (codes "accept:") (lower value) ≡ true
        → ApiCall saw rest
        → ApiCall saw (codes "-H" ∷ value ∷ rest)

  pub data GhCall : List Text → Type 0 where
    auth_status : GhCall (codes "gh" ∷ codes "auth" ∷ codes "status" ∷ [])
    api : (args : List Text) → ApiCall false args → GhCall (codes "gh" ∷ codes "api" ∷ args)

  -- `starts_with "/"` and the equation with "-H", as a verdict on one argument.
  api_args_sound :
      (saw : Bool) (args : List Text) → api_args cs lower saw args ≡ none → ApiCall saw args
  unfolding api_args
  api_args_sound true [] h = done
  api_args_sound false [] h = absurd (cc (h))
  api_args_sound saw (tok ∷ []) h = elim (Bool-cases (starts_with (codes "/") tok)) [
    | inl slash ↦ lone saw slash (rw slash at h)
    | inr plain ↦ elim (Bool-cases (text_eq tok (codes "-H"))) [
      | inl header ↦
          let h' : some header_missing ≡ none = rw (plain, header) at h in absurd (cc (h'))
      | inr flag ↦ let h' : some flag_not_allowed ≡ none = rw (plain, flag) at h in absurd (cc (h'))
    ]
  ]
    where
      lone :
          (saw : Bool)
          → starts_with (codes "/") tok ≡ true
          → (if saw
              then some several_endpoints
              else if is_endpoint cs tok
              then none
              else some endpoint_not_allowed)
            ≡ none
          → ApiCall saw (tok ∷ [])
      lone true slash h = absurd (cc (h))
      lone false slash h = elim (Bool-cases (is_endpoint cs tok)) [
        | inl fits ↦ at_endpoint tok [] slash fits done
        | inr unfit ↦ let h' : some endpoint_not_allowed ≡ none = rw unfit at h in absurd (cc (h'))
      ]
  api_args_sound saw (tok ∷ next ∷ rest) h =
      let onward = api_args_sound true (next ∷ rest) in
      let behind_header = api_args_sound saw rest in
      elim (Bool-cases (starts_with (codes "/") tok)) [
        | inl slash ↦ first saw slash onward (rw slash at h)
        | inr plain ↦ elim (Bool-cases (text_eq tok (codes "-H"))) [
          | inl header ↦ elim (Bool-cases (starts_with (codes "accept:") (lower next))) [
            | inl accepts ↦
                let same = text_eq_sound tok (codes "-H") header in
                subst (λ t. ApiCall saw (t ∷ next ∷ rest)) (sym same)
                  (at_header saw next rest accepts
                    (behind_header (rw (plain, header, accepts) at h)))
            | inr refuses ↦
                let h' : some header_not_allowed ≡ none = rw (plain, header, refuses) at h in
                absurd (cc (h'))
          ]
          | inr flag ↦
              let h' : some flag_not_allowed ≡ none = rw (plain, flag) at h in absurd (cc (h'))
        ]
      ]
    where
      first :
          (saw : Bool)
          → starts_with (codes "/") tok ≡ true
          → (api_args cs lower true (next ∷ rest) ≡ none → ApiCall true (next ∷ rest))
          → (if saw
              then some several_endpoints
              else if is_endpoint cs tok
              then api_args cs lower true (next ∷ rest)
              else some endpoint_not_allowed)
            ≡ none
          → ApiCall saw (tok ∷ next ∷ rest)
      first true slash onward h = absurd (cc (h))
      first false slash onward h = elim (Bool-cases (is_endpoint cs tok)) [
        | inl fits ↦ at_endpoint tok (next ∷ rest) slash fits (onward (rw fits at h))
        | inr unfit ↦ let h' : some endpoint_not_allowed ≡ none = rw unfit at h in absurd (cc (h'))
      ]

  api_args_complete :
      (saw : Bool) (args : List Text) → ApiCall saw args → api_args cs lower saw args ≡ none
  unfolding api_args starts_with
  api_args_complete _ _ done = refl
  api_args_complete _ _ (at_endpoint tok [] slash fits call) = rw (slash, fits)
  api_args_complete _ _ (at_endpoint tok (next ∷ rest) slash fits call) =
      rw (slash, fits) (api_args_complete true (next ∷ rest) call)
  api_args_complete _ _ (at_header saw value rest accepts call) =
      rw accepts (api_args_complete saw rest call)

  api_args_iff :
      (saw : Bool) (args : List Text) → (api_args cs lower saw args ≡ none) ↔ ApiCall saw args
  api_args_iff saw args = (api_args_sound saw args, api_args_complete saw args)

  auth_args_iff :
      (args : List Text) → (auth_args cs lower args ≡ none) ↔ (args ≡ codes "status" ∷ [])
  auth_args_iff [] = (λ h. absurd (cc (h)), λ e. absurd (cc (e)))
  auth_args_iff (arg ∷ []) = (
    λ h. elim (Bool-cases (text_eq arg (codes "status"))) [
      | inl same ↦ ap (λ t. t ∷ []) (text_eq_sound arg (codes "status") same)
      | inr differs ↦ let h' : some only_auth_status ≡ none = rw differs at h in absurd (cc (h'))
    ],
    λ e.
        let same : arg ≡ codes "status" = ap (λ args. elim args [ [] ↦ [] | a ∷ _ ↦ a ]) e in
        let yes_there : text_eq arg (codes "status") ≡ true =
          rw same (text_eq_refl (codes "status")) in
        rw yes_there,
  )
  auth_args_iff (arg ∷ next ∷ rest) = (λ h. absurd (cc (h)), λ e. absurd (cc (e)))

  -- The verdict on a call of two words and more, in its three forms.
  auth-validate :
      (args : List Text)
      → validate_gh_argv cs lower (codes "gh" ∷ codes "auth" ∷ args) ≡ auth_args cs lower args
  unfolding validate_gh_argv
  auth-validate args = refl

  api-validate :
      (args : List Text)
      → validate_gh_argv cs lower (codes "gh" ∷ codes "api" ∷ args) ≡ api_args cs lower false args
  unfolding validate_gh_argv
  api-validate args = refl

  validate_gh_argv_sound : (argv : List Text) → validate_gh_argv cs lower argv ≡ none → GhCall argv
  unfolding validate_gh_argv
  validate_gh_argv_sound [] h = absurd (cc (h))
  validate_gh_argv_sound (gh ∷ []) h = absurd (cc (h))
  validate_gh_argv_sound (gh ∷ sub ∷ args) h = elim (Bool-cases (text_eq gh (codes "gh"))) [
    | inr not_there ↦ let h' : some not_gh ≡ none = rw not_there at h in absurd (cc (h'))
    | inl is_gh ↦ elim (Bool-cases (text_eq sub (codes "auth"))) [
      | inl is_auth ↦
          let status = (auth_args_iff args).0 (rw (is_gh, is_auth) at h) in
          subst GhCall (named is_gh is_auth status) auth_status
      | inr not_auth ↦ elim (Bool-cases (text_eq sub (codes "api"))) [
        | inr unknown ↦
            let h' : some subcommand_not_allowed ≡ none = rw (is_gh, not_auth, unknown) at h in
            absurd (cc (h'))
        | inl is_api ↦
            let call = api_args_sound false args (rw (is_gh, not_auth, is_api) at h) in
            subst GhCall (named is_gh is_api refl) (api args call)
      ]
    ]
  ]
    where
      named :
          {name : Text} {rest : List Text}
          → text_eq gh (codes "gh") ≡ true
          → text_eq sub name ≡ true
          → args ≡ rest
          → codes "gh" ∷ name ∷ rest ≡ gh ∷ sub ∷ args
      named {name} {rest} is_gh is_sub e =
          let gh≡ = text_eq_sound gh (codes "gh") is_gh in
          let sub≡ = text_eq_sound sub name is_sub in
          ap (λ t. t ∷ name ∷ rest) (sym gh≡)
          ∙ ap (λ t. gh ∷ t ∷ rest) (sym sub≡)
          ∙ ap (λ t. gh ∷ sub ∷ t) (sym e)

  -- A call of gh passes exactly when it is `gh auth status`, or `gh api` with any number of Accept
  -- headers and exactly one endpoint that the pattern admits.
  pub validate_gh_argv_iff :
      (argv : List Text) → (validate_gh_argv cs lower argv ≡ none) ↔ GhCall argv
  validate_gh_argv_iff argv = (validate_gh_argv_sound argv, complete argv)
    where
      complete : (argv : List Text) → GhCall argv → validate_gh_argv cs lower argv ≡ none
      complete _ auth_status =
          auth-validate (codes "status" ∷ []) ∙ (auth_args_iff (codes "status" ∷ [])).1 refl
      complete _ (api args call) = api-validate args ∙ api_args_complete false args call

-- An endpoint that the pattern admits begins with /repos/, and on the line behind it there are no
-- two dots in a row.
pub is_endpoint-dots :
    (cs : Charset) (tok : Text)
    → is_endpoint cs tok ≡ true
    → (tail : Text) × (tok ≡ codes "/repos/" ++ tail)
      × ((front back : Text)
          → All (λ c. is_dot_char c ≡ true) front
          → ¬ (tail ≡ front ++ (codes ".." ++ back)))
unfolding is_endpoint
is_endpoint-dots cs tok h =
    let (end, rest, (at, tail, prefix, (look_end, look_rest, ahead, m))) =
      (re_match_iff cs (endpoint cs) tok).0 h in
    (
      tail,
      literal_text cs (codes "/repos/") none tok at tail prefix,
      λ front back all e. ahead.0 (dots at tail front back all e),
    )
  where
    dots :
        (at : Option ℕ) (tail front back : Text)
        → All (λ c. is_dot_char c ≡ true) front
        → tail ≡ front ++ (codes ".." ++ back)
        → MatchesAt cs (seq (many is_dot_char) (literal (codes ".."))) at tail
    dots at tail front back all e = (
      last_of (last_of at front) (codes ".."),
      back,
      (
        last_of at front,
        codes ".." ++ back,
        (front, all, e, refl),
        literal_there cs (codes "..") (last_of at front) back,
      ),
    )
