-- ===== src/Smm/Worker/Whole.antt =====
-- The connection, the list of assets and the asset are there together: src/smm/smm.cpp.
use Prim.Native.String.{String}
use fss_smm_mav.Prelude.{
  ◌≡◌, refl, inl, inr, Bool, true, false, not, ◌&&◌, Option, none, some, List, [], if◌then◌else◌,
  Bool-cases,
}
use fss_smm_mav.Smm.Worker.{SmmConfig, Session, Entry}
use fss_smm_mav.Smm.Worker.Acquire.{is_some}
use fss_smm_mav.Smm.Worker.Connect.{
  is_connected, find_asset, asset_found, same_details, free_assets, close_connection, disconnect,
  keep_or_drop, with_assets, with_connection, connect, drop_stale, do_connect, ConnectAnswers,
}

module _ {Conn Asset : Type 0} where
  -- All three are there, or none is.
  abbrev pub AllOrNone : Option Conn → Option (List Asset) → Option Asset → Type 0
  AllOrNone none none none = Unit
  AllOrNone (some k) (some l) (some a) = Unit
  AllOrNone _ _ _ = ⊥

  pub record IsWhole (c : Session Conn Asset) : Type 0 where
    pub together : AllOrNone c.conn c.assets_list c.asset

  -- An asset is from a list.
  record HasList (c : Session Conn Asset) : Type 0 where
    no_asset : c.assets_list ≡ none → c.asset ≡ none

  no_list :
      (k : Option Conn) (l : Option (List Asset)) (a : Option Asset)
      → AllOrNone k l a
      → l ≡ none
      → a ≡ none
  no_list none none none h e = refl
  no_list (some k) (some l) (some a) h e = cc
  no_list none none (some a) h e = absurd h
  no_list none (some l) a h e = cc
  no_list (some k) none none h e = refl
  no_list (some k) none (some a) h e = absurd h
  no_list (some k) (some l) none h e = refl

  IsWhole-HasList : (c : Session Conn Asset) → IsWhole c → HasList c
  IsWhole-HasList c h = record { no_asset = no_list c.conn c.assets_list c.asset h.together }

  no_conn :
      (k : Option Conn) (l : Option (List Asset)) (a : Option Asset)
      → AllOrNone k l a
      → is_some k ≡ false
      → (l ≡ none) × (a ≡ none)
  no_conn none none none h e = (refl, refl)
  no_conn none none (some a) h e = absurd h
  no_conn none (some l) a h e = absurd h
  no_conn (some k) l a h e = cc

module _ {Conn Asset : Type 0} (Handle : Type 0) where
  freed-cleared :
      (l : Option (List Asset)) (c : Session Conn Asset)
      → c.assets_list ≡ l
      → HasList c
      → ((free_assets {Handle = Handle} l c).0.assets_list ≡ none)
        × ((free_assets {Handle = Handle} l c).0.asset ≡ none)
  freed-cleared none c e h = (e, h.no_asset e)
  freed-cleared (some l) c e h = (refl, refl)

  closed-cleared :
      (k : Option Conn) (c : Session Conn Asset)
      → c.conn ≡ k
      → c.assets_list ≡ none
      → c.asset ≡ none
      → IsWhole (close_connection {Handle = Handle} k c).0
  closed-cleared none c e f g = record { together = rw (e, f, g) tt }
  closed-cleared (some k) c e f g = record { together = rw (f, g) tt }

  disconnect-IsWhole :
      (c : Session Conn Asset) → HasList c → IsWhole (disconnect {Handle = Handle} c).0
  unfolding disconnect
  disconnect-IsWhole c h =
      let c' = (free_assets {Handle = Handle} c.assets_list c).0 in
      let k = freed-cleared c.assets_list c refl h in closed-cleared c'.conn c' refl k.0 k.1

  disconnect-conn : (c : Session Conn Asset) → (disconnect {Handle = Handle} c).0.conn ≡ none
  unfolding disconnect
  disconnect-conn c =
      let c' = (free_assets {Handle = Handle} c.assets_list c).0 in closed_conn c'.conn c' refl
    where
      closed_conn :
          (k : Option Conn) (c : Session Conn Asset)
          → c.conn ≡ k
          → (close_connection {Handle = Handle} k c).0.conn ≡ none
      closed_conn none c e = e
      closed_conn (some k) c e = refl

  either-IsWhole :
      (b : Bool) (x y : Session Conn Asset × List (Entry Conn Asset Handle))
      → IsWhole x.0
      → IsWhole y.0
      → IsWhole (if b then x else y).0
  either-IsWhole true x y h k = h
  either-IsWhole false x y h k = k

  kept-IsWhole :
      (c : Session Conn Asset)
      → is_some c.conn ≡ true
      → is_some c.assets_list ≡ true
      → IsWhole (keep_or_drop {Handle = Handle} c).0
  kept-IsWhole c e f = elim (Bool-cases (is_some c.asset)) [
    | inl g ↦ simp g (record { together = all_there c.conn c.assets_list c.asset e f g })
    | inr g ↦ simp g (disconnect-IsWhole c (record { no_asset = λ _. is_none c.asset g }))
  ]
    where
      is_none : (a : Option Asset) → is_some a ≡ false → a ≡ none
      is_none none e = refl
      is_none (some a) e = cc

      all_there :
          (k : Option Conn) (l : Option (List Asset)) (a : Option Asset)
          → is_some k ≡ true
          → is_some l ≡ true
          → is_some a ≡ true
          → AllOrNone k l a
      all_there none l a e f g = cc
      all_there (some k) none a e f g = cc
      all_there (some k) (some l) none e f g = cc
      all_there (some k) (some l) (some a) e f g = tt

  assets-IsWhole :
      (name_of : Asset → String) (l : Option (List Asset)) (c : Session Conn Asset)
      → is_some c.conn ≡ true
      → HasList c
      → IsWhole (with_assets {Handle = Handle} name_of l c).0
  assets-IsWhole name_of none c e h = disconnect-IsWhole c h
  assets-IsWhole name_of (some assets) c e h =
      kept-IsWhole
        (record c {
          assets_list = some assets;
          asset = asset_found (find_asset name_of c.asset_name assets) c.asset;
        })
        e refl

  connection-IsWhole :
      (a : ConnectAnswers Conn Asset) (config : SmmConfig) (k : Option Conn)
      (c : Session Conn Asset)
      → c.assets_list ≡ none
      → c.asset ≡ none
      → IsWhole (with_connection {Handle = Handle} a config k (record c { conn = k })).0
  connection-IsWhole a config none c e f = record { together = rw (e, f) tt }
  connection-IsWhole a config (some k) c e f =
      let c' = record c { conn = some k } in
      let h : HasList c' = record { no_asset = λ _. f } in
      either-IsWhole (not (is_connected (some k) a.state_connected)) (disconnect c')
        (with_assets a.name_of a.assets c') (disconnect-IsWhole c' h)
        (assets-IsWhole a.name_of a.assets c' refl h)

  -- doConnect leaves all three, or none.
  pub do_connect-IsWhole :
      (a : ConnectAnswers Conn Asset) (config : SmmConfig) (host user pass name : String)
      (c : Session Conn Asset)
      → IsWhole c
      → IsWhole (do_connect {Handle = Handle} a config host user pass name c).0
  unfolding do_connect drop_stale connect
  do_connect-IsWhole a config host user pass name c h =
      let stale = is_some c.conn && not (same_details host user pass name c && a.still_connected) in
      let dropped : Session Conn Asset × List (Entry Conn Asset Handle) =
        if stale then disconnect c else (c, []) in
      let kept : IsWhole dropped.0 =
        either-IsWhole stale (disconnect c) (c, []) (disconnect-IsWhole c (IsWhole-HasList c h))
          h in
      let details = record dropped.0 {
        smm_host = host;
        smm_user = user;
        smm_pass = pass;
        asset_name = name;
      } in
      elim (Bool-cases (is_some dropped.0.conn)) [
        | inl e ↦ rw e kept
        | inr e ↦
            let gone =
              no_conn dropped.0.conn dropped.0.assets_list dropped.0.asset kept.together e in
            rw e (connection-IsWhole a config a.new_connection details gone.0 gone.1)
      ]
