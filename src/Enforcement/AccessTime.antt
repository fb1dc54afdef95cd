-- ===== src/Enforcement/AccessTime.antt =====
-- The class AccessTimeMap of keymaster_enforcement.cpp: when a rate-limited key was last used.
use platform_system_keymaste.Common.{
  ℕ, ◌+◌, ◌-◌, ◌%◌, ◌≤◌, ◌<◌, ◌≡◌, ◌≢◌, Bool, true, false, List, [], ◌∷◌, Option, none, some, arith,
  length, leb, ◌==◌, if◌then◌else◌,
}

pub record AccessTime : Type 0 where
  pub keyid : ℕ
  pub access_time : ℕ
  pub timeout : ℕ

pub record AccessTimeMap : Type 0 where
  pub last_access_list : List AccessTime
  pub max_size : ℕ

unfoldable pub last_time : ℕ → List AccessTime → Option ℕ
last_time keyid [] = none
last_time keyid (e ∷ es) = if e.keyid == keyid then some e.access_time else last_time keyid es

unfoldable pub last_key_access_time : AccessTimeMap → ℕ → Option ℕ
unfolding last_time
last_key_access_time m keyid = last_time keyid m.last_access_list

-- `current_time - iter->access_time`, of uint32_t.
abbrev pub elapsed : ℕ → AccessTime → ℕ
elapsed now e = (now + 0x1_0000_0000 - e.access_time) % 0x1_0000_0000

-- The loop of `UpdateKeyAccessTime`: it stops at the key's entry, and drops what has expired before.
unfoldable pub refresh : ℕ → ℕ → List AccessTime → List AccessTime × Bool
refresh keyid now [] = ([], false)
refresh keyid now (e ∷ es) =
    let (rest, found) = refresh keyid now es in
    if e.keyid == keyid
    then (record e { access_time = now } ∷ es, true)
    else if leb e.timeout (elapsed now e)
    then (rest, found)
    else (e ∷ rest, found)

-- The list after the loop, and a new entry in front if none was found and there is room.
unfoldable pub add_time_entry : AccessTime → ℕ → List AccessTime × Bool → List AccessTime × Bool
add_time_entry new_entry max_size (list, true) = (list, true)
add_time_entry new_entry max_size (list, false) =
    if leb max_size (length list) then (list, false) else (new_entry ∷ list, true)

unfoldable pub update_key_access_time : AccessTimeMap → ℕ → ℕ → ℕ → AccessTimeMap × Bool
update_key_access_time m keyid current_time timeout =
    let new_entry : AccessTime = record {
      keyid = keyid;
      access_time = current_time;
      timeout = timeout;
    } in
    let (list, done) =
      add_time_entry new_entry m.max_size (refresh keyid current_time m.last_access_list) in
    (record m { last_access_list = list }, done)

length-refresh :
    (keyid now : ℕ) (es : List AccessTime) → length (refresh keyid now es).0 ≤ length es
unfolding refresh
length-refresh keyid now [] = omega arith
length-refresh keyid now (e ∷ es) = ground (arith, length-refresh keyid now es)

-- The table never grows past its maximum.
pub update_key_access_time_bounded :
    (m : AccessTimeMap) (keyid now timeout : ℕ)
    → length m.last_access_list ≤ m.max_size
    → length (update_key_access_time m keyid now timeout).0.last_access_list ≤ m.max_size
unfolding update_key_access_time add_time_entry
update_key_access_time_bounded m keyid now timeout h =
    ground (arith, length-refresh keyid now m.last_access_list)

refresh-found :
    (keyid now : ℕ) (es : List AccessTime)
    → (refresh keyid now es).1 ≡ true
    → last_time keyid (refresh keyid now es).0 ≡ some now
unfolding refresh last_time
refresh-found keyid now [] h = cc
refresh-found keyid now (e ∷ es) h = ground (arith, refresh-found keyid now es)

-- An update that succeeds enters the current time for the key.
pub last_key_access_time-update_self :
    (m : AccessTimeMap) (keyid now timeout : ℕ)
    → (update_key_access_time m keyid now timeout).1 ≡ true
    → last_key_access_time (update_key_access_time m keyid now timeout).0 keyid ≡ some now
unfolding update_key_access_time last_key_access_time add_time_entry
last_key_access_time-update_self m keyid now timeout h =
    ground (arith, refresh-found keyid now m.last_access_list)

-- The entry for a key that counts, if any.
unfoldable pub entry_of : ℕ → List AccessTime → Option AccessTime
entry_of keyid [] = none
entry_of keyid (e ∷ es) = if e.keyid == keyid then some e else entry_of keyid es

pub last_time-entry_of :
    (keyid : ℕ) (es : List AccessTime) (e : AccessTime)
    → entry_of keyid es ≡ some e
    → last_time keyid es ≡ some e.access_time
unfolding entry_of last_time
last_time-entry_of keyid [] e h = cc
last_time-entry_of keyid (x ∷ es) e h = ground (arith, last_time-entry_of keyid es e)

entry_of-refresh_ne :
    (keyid j now : ℕ) (es : List AccessTime) (e : AccessTime)
    → j ≢ keyid
    → entry_of j es ≡ some e
    → elapsed now e < e.timeout
    → entry_of j (refresh keyid now es).0 ≡ some e
unfolding refresh entry_of
entry_of-refresh_ne keyid j now [] e ne h live = cc
entry_of-refresh_ne keyid j now (x ∷ es) e ne h live =
    ground (arith, entry_of-refresh_ne keyid j now es e ne)

-- An update for one key keeps the entry of every other key whose timeout has not run out.
pub entry_of-update_ne :
    (m : AccessTimeMap) (keyid j now timeout : ℕ) (e : AccessTime)
    → j ≢ keyid
    → entry_of j m.last_access_list ≡ some e
    → elapsed now e < e.timeout
    → entry_of j (update_key_access_time m keyid now timeout).0.last_access_list ≡ some e
unfolding update_key_access_time add_time_entry entry_of
entry_of-update_ne m keyid j now timeout e ne h live =
    ground (arith, entry_of-refresh_ne keyid j now m.last_access_list e ne h live)
