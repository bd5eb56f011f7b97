-- ===== src/EventTypes.antt =====
-- event.h: the event record and its codes, and the two tables of event.c that describe them.
use Prim.Native.Char.{code}
use Prim.Native.String.{String}
use icmond.Prelude.{ℕ, ℤ, pos, List, [], ◌∷◌}

-- A string without its terminating NUL.
abbrev pub Bytes : Type 0
Bytes = List ℕ

-- The bytes of an ASCII literal.
abbrev pub codes : String → Bytes
codes String.[] = []
codes (String.◌∷◌ c s) = code c ∷ codes s

-- event_t. The bit fields hold the small codes below.
pub record Event : Type 0 where
  pub next_trigger : ℤ
  pub localoffset : ℤ
  pub type : ℕ
  pub action : ℕ
  pub source : ℕ

-- EVENT_TYPE_*
abbrev pub type_daily : ℕ
type_daily = 1

abbrev pub type_interval : ℕ
type_interval = 2

abbrev pub type_once : ℕ
type_once = 3

-- EVENT_ACTION_*
abbrev pub action_suspend : ℕ
action_suspend = 1

abbrev pub action_resume : ℕ
action_resume = 2

abbrev pub action_poweroff : ℕ
action_poweroff = 3

abbrev pub action_poweron : ℕ
action_poweron = 4

abbrev pub action_importtmpfs : ℕ
action_importtmpfs = 5

abbrev pub action_importtmpfstimeout : ℕ
action_importtmpfstimeout = 6

abbrev pub action_watchdog : ℕ
action_watchdog = 7

abbrev pub action_maxvalue : ℕ
action_maxvalue = action_watchdog

-- EVENT_SOURCE_*
abbrev pub source_internal : ℕ
source_internal = 1

abbrev pub source_parsed : ℕ
source_parsed = 2

abbrev pub seconds_per_day : ℕ
seconds_per_day = 86400

abbrev pub seconds_per_hour : ℕ
seconds_per_hour = 3600

abbrev pub seconds_per_minute : ℕ
seconds_per_minute = 60

-- calloc(1, sizeof(event_t))
abbrev pub zero_event : Event
zero_event = record { next_trigger = pos 0; localoffset = pos 0; type = 0; action = 0; source = 0 }

-- event_action_t
pub record EventAction : Type 0 where
  pub name : Bytes
  pub default_type : ℕ

-- event_action[], without the entry that ends it
abbrev pub event_action : List EventAction
event_action =
    record { name = codes "(null)"; default_type = 0 }
    ∷ record { name = codes "SUSPEND"; default_type = type_daily }
    ∷ record { name = codes "RESUME"; default_type = type_daily }
    ∷ record { name = codes "POWEROFF"; default_type = type_daily }
    ∷ record { name = codes "POWERON"; default_type = type_daily }
    ∷ record { name = codes "IMPORTTMPFS"; default_type = type_interval }
    ∷ record { name = codes "IMPORTTMPFSTIMEOUT"; default_type = type_once }
    ∷ record { name = codes "WATCHDOG"; default_type = type_interval }
    ∷ []

-- event_scheduling_t
pub record EventScheduling : Type 0 where
  pub prefix : Bytes
  pub name : Bytes

-- event_type[], without the entry that ends it
abbrev pub event_type : List EventScheduling
event_type =
    record { prefix = codes "(null)"; name = codes "(null)" }
    ∷ record { prefix = codes ""; name = codes "DAILY" }
    ∷ record { prefix = codes "@"; name = codes "INTERVAL" }
    ∷ record { prefix = codes "!"; name = codes "ONCE" }
    ∷ []
