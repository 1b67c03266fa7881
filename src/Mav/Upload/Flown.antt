-- ===== src/Mav/Upload/Flown.antt =====
-- A search that loadSearch of src/mav/mavlink.cpp uploads and the autopilot accepts.
use fss_smm_mav.Mav.ModeResolve
use fss_smm_mav.Mav.Mission.{search_point_mission_seq, mission_count_for, search}
use fss_smm_mav.Mav.ModeResolve.{resolve_mav_mode, MavType, CustomMode, auto_mode}
use fss_smm_mav.Mav.Upload.{
  mode_sent, open_search, same_ref, needs_load, take_search, engaged_by, take_ack,
  set_resolved_mode, upload_search, load_search, engage, mission_ack, Connection, SearchView,
  Message, set_mode, mission_count, mission_set_current,
}
use fss_smm_mav.Prelude.{
  ℕ, ◌%◌, ◌^◌, ◌≡◌, refl, ap, Bool, true, false, not, ◌||◌, Option, some, List, [], ◌∷◌, arith,
  length,
}

module _ (mav_type : MavType) (transmits : Message → Bool) (view : ℕ → SearchView) where
  -- The search is on the autopilot, and the next load of it does nothing.
  abbrev pub StaysLoaded : ℕ → Connection → Type 0
  StaysLoaded t c =
      (c.search_loaded ≡ true)
      × (c.search_ref ≡ some t)
      × (load_search mav_type transmits view (some t) c ≡ (c, []))

  not_needed :
      (t : ℕ) (loaded : Bool) (r : Option ℕ)
      → loaded ≡ true
      → r ≡ some t
      → (not (same_ref r (some t)) || not loaded) ≡ false
  not_needed t loaded r l e = rw (e, l) (ground arith)

  loaded_once :
      (t : ℕ) (c : Connection)
      → needs_load (some t) c ≡ false
      → load_search mav_type transmits view (some t) c ≡ (c, [])
  unfolding load_search
  loaded_once t c n = rw n refl

  search_opened : ℕ → CustomMode → Connection → Connection × List Message
  search_opened t home c = (
    open_search t (mode_sent true (take_search (some t) c)),
    set_mode home ∷ mission_count (mission_count_for (length (view t).points) search % 2 ^ 16) ∷ [],
  )

  load-opens :
      (t : ℕ) (c : Connection) (home : CustomMode)
      → resolve_mav_mode mav_type ModeResolve.rtl ≡ some home
      → needs_load (some t) c ≡ true
      → load_search mav_type transmits view (some t) c ≡ search_opened t home c
  unfolding load_search upload_search set_resolved_mode search_opened
  load-opens t c home h n = rw n (rw h refl)

  ack-engages :
      (t : ℕ) (c : Connection) (fly : CustomMode)
      → resolve_mav_mode mav_type auto_mode ≡ some fly
      → mission_ack mav_type transmits view true (open_search t c) ≡ (
        mode_sent false (take_ack true (open_search t c)),
        mission_set_current (search_point_mission_seq (view t).current_point) ∷ set_mode fly ∷ [],
      )
  unfolding mission_ack engage engaged_by set_resolved_mode open_search
  ack-engages t c fly f = rw f refl

  engaged-StaysLoaded :
      (t : ℕ) (c : Connection) → StaysLoaded t (mode_sent false (take_ack true (open_search t c)))
  unfolding mode_sent take_ack open_search
  engaged-StaysLoaded t c = (refl, refl, loaded_once t _ (not_needed t true (some t) refl refl))

  -- On a vehicle whose modes are known, a search that is not yet loaded is uploaded after a return
  -- mode is set; once the upload is accepted its current point is selected and AUTO engaged, in that
  -- order, and loading the same search again does nothing.
  pub accepted_search_is_flown :
      (t : ℕ) (c : Connection) (home fly : CustomMode)
      → resolve_mav_mode mav_type ModeResolve.rtl ≡ some home
      → resolve_mav_mode mav_type auto_mode ≡ some fly
      → needs_load (some t) c ≡ true
      → let up = load_search mav_type transmits view (some t) c in
        let done = mission_ack mav_type transmits view true up.0 in
        (up.1
          ≡ set_mode home
            ∷ mission_count (mission_count_for (length (view t).points) search % 2 ^ 16)
            ∷ [])
        × (done.1
            ≡ mission_set_current (search_point_mission_seq (view t).current_point)
              ∷ set_mode fly
              ∷ [])
        × StaysLoaded t done.0
  unfolding search_opened
  accepted_search_is_flown t c home fly h f n = rw (load-opens t c home h n) (
    refl,
    ap (λ p. p.1) (ack-engages t (mode_sent true (take_search (some t) c)) fly f),
    rw (ack-engages t (mode_sent true (take_search (some t) c)) fly f) (engaged-StaysLoaded t _),
  )
