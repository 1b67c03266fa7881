-- ===== src/Smm/Worker/Sessions.antt =====
-- What connecting does: src/smm/smm.cpp.
use Prim.Native.String.{String}
use fss_smm_mav.Prelude.{
  Bool, true, false, not, ◌&&◌, Option, none, some, List, [], ◌++◌, All, All-append, if◌then◌else◌,
}
use fss_smm_mav.Smm.Worker.{
  SmmConfig, Session, Entry, opened, timeouts_set, logged_in, closed, freed,
}
use fss_smm_mav.Smm.Worker.Acquire.{is_some}
use fss_smm_mav.Smm.Worker.Connect.{
  is_connected, find_asset, asset_found, same_details, free_assets, close_connection, disconnect,
  with_assets, with_connection, connect, drop_stale, do_connect, ConnectAnswers,
}

module _ {Conn Asset Handle : Type 0} where
  -- A call of the library about a connection or a list of assets.
  abbrev pub IsSessionCall : Entry Conn Asset Handle → Type 0
  IsSessionCall (opened k) = Unit
  IsSessionCall (timeouts_set k c t) = Unit
  IsSessionCall (logged_in k) = Unit
  IsSessionCall (closed k) = Unit
  IsSessionCall (freed l) = Unit
  IsSessionCall _ = ⊥

  pub record OnlySessionCalls (es : List (Entry Conn Asset Handle)) : Type 0 where
    pub each : All IsSessionCall es

  no_calls : OnlySessionCalls []
  no_calls = record { each = tt }

  calls_append :
      (es fs : List (Entry Conn Asset Handle))
      → OnlySessionCalls es
      → OnlySessionCalls fs
      → OnlySessionCalls (es ++ fs)
  calls_append es fs h k = record { each = All-append IsSessionCall es fs h.each k.each }

  free_calls :
      (l : Option (List Asset)) (c : Session Conn Asset) → OnlySessionCalls (free_assets l c).1
  free_calls none c = no_calls
  free_calls (some l) c = record { each = (tt, tt) }

  close_calls :
      (k : Option Conn) (c : Session Conn Asset) → OnlySessionCalls (close_connection k c).1
  close_calls none c = no_calls
  close_calls (some k) c = record { each = (tt, tt) }

  disconnect_calls : (c : Session Conn Asset) → OnlySessionCalls (disconnect c).1
  unfolding disconnect
  disconnect_calls c =
      let (c', es) = free_assets c.assets_list c in
      calls_append es (close_connection c'.conn c').1 (free_calls c.assets_list c)
        (close_calls c'.conn c')

  either_calls :
      (test : Bool) (x y : Session Conn Asset × List (Entry Conn Asset Handle))
      → OnlySessionCalls x.1
      → OnlySessionCalls y.1
      → OnlySessionCalls (if test then x else y).1
  either_calls true x y h k = h
  either_calls false x y h k = k

  with_assets_calls :
      (name_of : Asset → String) (found : Option (List Asset)) (c : Session Conn Asset)
      → OnlySessionCalls (with_assets name_of found c).1
  with_assets_calls name_of none c = disconnect_calls c
  with_assets_calls name_of (some assets) c =
      let c' : Session Conn Asset = record c {
        assets_list = some assets;
        asset = asset_found (find_asset name_of c.asset_name assets) c.asset;
      } in
      either_calls (is_some c'.asset) (c', []) (disconnect c') no_calls (disconnect_calls c')

  with_connection_calls :
      (a : ConnectAnswers Conn Asset) (config : SmmConfig) (k : Option Conn)
      (c : Session Conn Asset)
      → OnlySessionCalls (with_connection a config k c).1
  with_connection_calls a config none c = no_calls
  with_connection_calls a config (some connection) c =
      let h =
        either_calls (not (is_connected (some connection) a.state_connected)) (disconnect c)
          (with_assets a.name_of a.assets c) (disconnect_calls c)
          (with_assets_calls a.name_of a.assets c) in
      record { each = (tt, (tt, h.each)) }

  connect_calls :
      (a : ConnectAnswers Conn Asset) (config : SmmConfig) (c : Session Conn Asset)
      → OnlySessionCalls (connect a config c).1
  unfolding connect
  connect_calls a config c =
      let h =
        with_connection_calls a config a.new_connection (record c { conn = a.new_connection }) in
      record { each = (tt, h.each) }

  pub do_connect_calls :
      (a : ConnectAnswers Conn Asset) (config : SmmConfig) (host user pass name : String)
      (c : Session Conn Asset)
      → OnlySessionCalls (do_connect a config host user pass name c).1
  unfolding do_connect drop_stale
  do_connect_calls a config host user pass name c =
      let stale = is_some c.conn && not (same_details host user pass name c && a.still_connected) in
      let dropped : Session Conn Asset × List (Entry Conn Asset Handle) =
        if stale then disconnect c else (c, []) in
      let details = record dropped.0 {
        smm_host = host;
        smm_user = user;
        smm_pass = pass;
        asset_name = name;
      } in
      let h = either_calls stale (disconnect c) (c, []) (disconnect_calls c) no_calls in
      either_calls (is_some dropped.0.conn) dropped
        ((connect a config details).0, dropped.1 ++ (connect a config details).1) h
        (calls_append dropped.1 (connect a config details).1 h (connect_calls a config details))
