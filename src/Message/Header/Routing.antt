-- ===== src/Message/Header/Routing.antt =====
-- The message id and the command of a header, in its fields and in what the decoder reads of its text.
use pod_os_py_client.Prelude.{Option, some, ◌≡◌, All, All-In, In}
use pod_os_py_client.Prelude.Text.{Str, strip}
use pod_os_py_client.Message.Types.{Message}
use pod_os_py_client.Message.Header.Fields.{Layout, fields_of, render, decode_header}
use pod_os_py_client.Message.Header.Reading.{IsClean, decode_header-render, lookup-apply_fields}
use pod_os_py_client.Message.Header.Keys.{message_id_key, command_key, or_option-none}
use pod_os_py_client.Message.Header.{header_layout, construct_header}
use pod_os_py_client.Intents.Constants.{Intent}
use pod_os_py_client.Prelude.Dict.{lookup, or_empty}
use mathlib.Core.Path.{subst}
use pod_os_py_client.Message.Header.Carried.{header_names, Carries, header_names-Carries}

-- For each intent that has a header, the header's fields give the key `_msg_id` the message's id
-- without the spaces round it (nothing, if it is empty), and the key `_db_cmd` the intent's command, or
-- nothing if it is no memory intent; whatever the message holds.
pub header_layout-Carries :
    (now : Str) (msg : Message) (name : Str) (command : Option Str)
    → In {A = Str × Option Str} (name, command) header_names
    → Carries msg command (header_layout now msg name)
header_layout-Carries now msg name command m =
    All-In (λ (entry : Str × Option Str). Carries msg entry.1 (header_layout now msg entry.0))
      header_names (name, command) (header_names-Carries now msg) m

-- For an intent that has a header, the constructed text is that of its layout, and if no key or value
-- of it holds a separator the decoder finds in that text the message's id, without the spaces round it,
-- and the intent's command, or none.
pub decode_header-construct_header :
    (now : Str) (msg : Message) (intent : Intent) (command : Option Str) (layout : Layout)
    → In {A = Str × Option Str} (intent.name, command) header_names
    → header_layout now msg intent.name ≡ some layout
    → All IsClean (fields_of layout)
    → (construct_header now msg intent ≡ some (render layout))
      × (or_empty (lookup message_id_key (decode_header (render layout))) ≡ strip msg.message_id)
      × (lookup command_key (decode_header (render layout)) ≡ command)
unfolding construct_header
decode_header-construct_header now msg intent command layout m e clean =
    let carried : Carries msg command (some layout) =
      subst (Carries msg command) e (header_layout-Carries now msg intent.name command m) in
    (
      rw (e, construct_header),
      simp (decode_header-render layout clean, lookup-apply_fields, or_option-none, carried.0),
      simp (decode_header-render layout clean, lookup-apply_fields, or_option-none, carried.1),
    )
