-- ===== src/Smm/Worker/Lawful.antt =====
-- Under which conditions the worker calls the smm-asset library: src/smm/smm.cpp.
pub mod Rounds
pub mod Connecting
pub mod Tasks
use fss_smm_mav.Prelude.{
  ◌≡◌, refl, subst, ◌∙◌, inl, inr, Bool, true, false, Option, none, some, List, [], ◌∷◌, ◌++◌,
  Option-cases,
}
use fss_smm_mav.Smm.Search.{destroy_search, SmmSearch, accepted}
use fss_smm_mav.Smm.Worker.{
  noted, request, requests, called, search_calls, let_go, Smm, Request, on_connect, on_search,
  on_cancel_search, on_retry_pending, on_report_position, on_reached_point, Entry, requested,
  asked_command, position_sent, asked_search, search_call,
}
use fss_smm_mav.Smm.Worker.Acquire.{is_some}

-- Whether SMM has the searching role after a call.
abbrev pub role_after : Bool → Request → Bool
role_after active (on_search p) = true
role_after active on_cancel_search = false
role_after active _ = active

-- An argument that is not the null pointer.
abbrev pub IsPresent : {A : Type 0} → Option A → Type 0
IsPresent none = ⊥
IsPresent (some a) = Unit

pub IsPresent-of : {A : Type 0} (asset : Option A) → is_some asset ≡ true → IsPresent asset
IsPresent-of none e = cc
IsPresent-of (some a) e = tt

module _ {Conn Asset Handle : Type 0} where
  abbrev pub role_then : Bool → Entry Conn Asset Handle → Bool
  role_then active (requested r) = role_after active r
  role_then active _ = active

  -- A search is accepted in the searching role only; the calls about an asset get one.
  abbrev pub IsLawful : Bool → Entry Conn Asset Handle → Type 0
  IsLawful active (search_call (accepted h)) = active ≡ true
  IsLawful active (asked_command asset) = IsPresent asset
  IsLawful active (position_sent asset p alt heading) = IsPresent asset
  IsLawful active (asked_search asset h) = IsPresent asset
  IsLawful active _ = Unit

  -- So it is for each entry, the role being followed along the entries.
  abbrev pub AllLawful : Bool → List (Entry Conn Asset Handle) → Type 0
  AllLawful active [] = Unit
  AllLawful active (e ∷ es) = IsLawful active e × AllLawful (role_then active e) es

  abbrev pub role_of : Bool → List (Entry Conn Asset Handle) → Bool
  role_of active [] = active
  role_of active (e ∷ es) = role_of (role_then active e) es

  role_of-append :
      (b : Bool) (es fs : List (Entry Conn Asset Handle))
      → role_of b (es ++ fs) ≡ role_of (role_of b es) fs
  role_of-append b [] fs = refl
  role_of-append b (e ∷ es) fs = role_of-append (role_then b e) es fs

  AllLawful-append :
      (b : Bool) (es fs : List (Entry Conn Asset Handle))
      → AllLawful b es
      → AllLawful (role_of b es) fs
      → AllLawful b (es ++ fs)
  AllLawful-append b [] fs h k = k
  AllLawful-append b (e ∷ es) fs h k = (h.0, AllLawful-append (role_then b e) es fs h.1 k)

  -- The entries are lawful from the role `b`, and leave the role `b'`.
  pub record Leads (b : Bool) (es : List (Entry Conn Asset Handle)) (b' : Bool) : Type 0 where
    pub lawful : AllLawful b es
    pub role : role_of b es ≡ b'

  pub none-Leads : (b : Bool) → Leads b [] b
  none-Leads b = record { lawful = tt; role = refl }

  pub append-Leads :
      {b b' b'' : Bool} (es fs : List (Entry Conn Asset Handle))
      → Leads b es b'
      → Leads b' fs b''
      → Leads b (es ++ fs) b''
  append-Leads {b = b} es fs h k = record {
    lawful = AllLawful-append b es fs h.lawful (rw h.role k.lawful);
    role = role_of-append b es fs ∙ rw h.role k.role;
  }

  pub request_role :
      (s : Smm Conn Asset Handle) (r : Request)
      → (request s r).search_active ≡ role_after s.search_active r
  unfolding request
  request_role s (on_connect host user pass name) = refl
  request_role s (on_search p) = refl
  request_role s on_cancel_search = refl
  request_role s (on_retry_pending p) = refl
  request_role s (on_report_position pd) = refl
  request_role s (on_reached_point point) = refl

  pub noted-Leads :
      (s : Smm Conn Asset Handle) (rs : List Request)
      → Leads s.search_active (noted rs) (requests s rs).search_active
  unfolding requests
  noted-Leads s [] = none-Leads s.search_active
  noted-Leads s (r ∷ rs) =
      let rest =
        subst (λ b. Leads b (noted rs) (requests (request s r) rs).search_active) (request_role s r)
          (noted-Leads (request s r) rs) in
      record { lawful = (tt, rest.lawful); role = rest.role }

  request-session : (s : Smm Conn Asset Handle) (r : Request) → (request s r).session ≡ s.session
  unfolding request
  request-session s (on_connect host user pass name) = refl
  request-session s (on_search p) = refl
  request-session s on_cancel_search = refl
  request-session s (on_retry_pending p) = refl
  request-session s (on_report_position pd) = refl
  request-session s (on_reached_point point) = refl

  pub requests-session :
      (s : Smm Conn Asset Handle) (rs : List Request) → (requests s rs).session ≡ s.session
  unfolding requests
  requests-session s [] = refl
  requests-session s (r ∷ rs) = requests-session (request s r) rs ∙ request-session s r

  pub called-Leads :
      (b registered : Bool) (e : Entry Conn Asset Handle)
      → IsLawful b e
      → role_then b e ≡ b
      → Leads b (called registered e) b
  called-Leads b true e h k = record { lawful = (h, tt); role = k }
  called-Leads b false e h k = none-Leads b

  pub destroy-Leads :
      (b : Bool) (c : SmmSearch Handle) → Leads b (search_calls (destroy_search c)) b
  unfolding destroy_search
  destroy-Leads b c = elim (Option-cases c.search_handle) [
    | inl e ↦ simp e (none-Leads b)
    | inr (h, e) ↦ simp e (record { lawful = (tt, tt); role = refl })
  ]

  pub let_go-Leads : (b : Bool) (held : Option (SmmSearch Handle)) → Leads b (let_go held) b
  let_go-Leads b none = none-Leads b
  let_go-Leads b (some c) = record { lawful = (tt, tt); role = refl }
