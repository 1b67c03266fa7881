-- ===== src/Smm/Worker/Connect.antt =====
-- disconnect, connect and doConnect of src/smm/smm.cpp, with src/smm/connection-state.hpp. What the
-- library answers is an argument; a failed smm_asset_get_assets leaves the list as it was.
use Prim.Native.String.{String}
use fss_smm_mav.Prelude.{
  Bool, false, not, ◌&&◌, Option, none, some, List, [], ◌∷◌, ◌++◌, if◌then◌else◌,
}
use fss_smm_mav.Prelude.Assoc.{string_eq, nat_eq}
use fss_smm_mav.Smm.Worker.{
  SmmConfig, Session, Entry, opened, timeouts_set, logged_in, closed, freed,
}
use fss_smm_mav.Smm.Worker.Acquire.{is_some}

-- The answers during doConnect: the state of the connection that is there, smm_asset_connect, the
-- state after the login, and smm_asset_get_assets, none if it fails; and the names of assets.
pub record ConnectAnswers (Conn Asset : Type 0) : Type 0 where
  pub still_connected : Bool
  pub new_connection : Option Conn
  pub state_connected : Bool
  pub assets : Option (List Asset)
  pub name_of : Asset → String

module _ {Conn : Type 0} where
  -- Whether smm_connection_is_connected says so of the connection after the login.
  abbrev pub is_connected : Option Conn → Bool → Bool
  is_connected none state_connected = false
  is_connected (some connection) state_connected = state_connected

module _ {Asset : Type 0} where
  -- The loop over the assets, to the first of the name.
  abbrev pub find_asset : (Asset → String) → String → List Asset → Option Asset
  find_asset name_of name [] = none
  find_asset name_of name (a ∷ assets) =
      let rest = find_asset name_of name assets in
      if string_eq.beq (name_of a) name then some a else rest

  abbrev pub asset_found : Option Asset → Option Asset → Option Asset
  asset_found none before = before
  asset_found (some a) before = some a

module _ {Conn Asset : Type 0} where
  abbrev pub same_details : String → String → String → String → Session Conn Asset → Bool
  same_details host user pass name c =
      string_eq.beq c.smm_host host
      && string_eq.beq c.smm_user user
      && string_eq.beq c.smm_pass pass
      && string_eq.beq c.asset_name name

module _ {Conn Asset Handle : Type 0} where
  abbrev pub free_assets :
      Option (List Asset) → Session Conn Asset → Session Conn Asset × List (Entry Conn Asset Handle)
  free_assets none c = (c, [])
  free_assets (some assets) c = (record c { asset = none; assets_list = none }, freed assets ∷ [])

  abbrev pub close_connection :
      Option Conn → Session Conn Asset → Session Conn Asset × List (Entry Conn Asset Handle)
  close_connection none c = (c, [])
  close_connection (some connection) c = (record c { conn = none }, closed connection ∷ [])

  unfoldable pub disconnect :
      Session Conn Asset → Session Conn Asset × List (Entry Conn Asset Handle)
  disconnect c =
      let (c', es) = free_assets c.assets_list c in
      let (c'', fs) = close_connection c'.conn c' in (c'', es ++ fs)

  -- After the loop: without the asset there is no connection.
  abbrev pub keep_or_drop : Session Conn Asset → Session Conn Asset × List (Entry Conn Asset Handle)
  keep_or_drop c = if is_some c.asset then (c, []) else disconnect c

  abbrev pub with_assets :
      (Asset → String)
      → Option (List Asset)
      → Session Conn Asset
      → Session Conn Asset × List (Entry Conn Asset Handle)
  with_assets name_of none c = disconnect c
  with_assets name_of (some assets) c = keep_or_drop (record c {
    assets_list = some assets;
    asset = asset_found (find_asset name_of c.asset_name assets) c.asset;
  })

  abbrev pub with_connection :
      ConnectAnswers Conn Asset
      → SmmConfig
      → Option Conn
      → Session Conn Asset
      → Session Conn Asset × List (Entry Conn Asset Handle)
  with_connection a config none c = (c, [])
  with_connection a config (some connection) c =
      let (c', es) =
        if not (is_connected (some connection) a.state_connected)
        then disconnect c
        else with_assets a.name_of a.assets c in
      (
        c',
        timeouts_set connection config.connect_timeout_s config.transfer_timeout_s
            ∷ logged_in connection
            ∷ es,
      )

  -- The private `connect`.
  unfoldable pub connect :
      ConnectAnswers Conn Asset
      → SmmConfig
      → Session Conn Asset
      → Session Conn Asset × List (Entry Conn Asset Handle)
  unfolding disconnect
  connect a config c =
      let (c', es) =
        with_connection a config a.new_connection (record c { conn = a.new_connection }) in
      (c', opened a.new_connection ∷ es)

  -- The first test of doConnect: a connection with other details, or that has failed, is closed.
  unfoldable pub drop_stale :
      ConnectAnswers Conn Asset
      → String
      → String
      → String
      → String
      → Session Conn Asset
      → Session Conn Asset × List (Entry Conn Asset Handle)
  unfolding disconnect
  drop_stale a host user pass name c =
      if is_some c.conn && not (same_details host user pass name c && a.still_connected)
      then disconnect c
      else (c, [])

  unfoldable pub do_connect :
      ConnectAnswers Conn Asset
      → SmmConfig
      → String
      → String
      → String
      → String
      → Session Conn Asset
      → Session Conn Asset × List (Entry Conn Asset Handle)
  unfolding drop_stale connect
  do_connect a config host user pass name c =
      let (c', es) = drop_stale a host user pass name c in
      if is_some c'.conn
      then (c', es)
      else let (c'', fs) =
          connect a config
            (record c' { smm_host = host; smm_user = user; smm_pass = pass; asset_name = name }) in
        (c'', es ++ fs)
