-- ===== src/Common/Protocol/Input.antt =====
-- cpp/common/protocol.hpp: the input events that follow an `InputHeader`. A signed field is its bit
-- pattern.
use remote_play.Prelude.{ℕ, List, [], ◌∷◌, get_or}
use remote_play.Common.Protocol.Layout.{encode, decode}

pub data InputType : Type 0 where
  keyboard mouse_move mouse_button mouse_scroll gamepad gamepad_status : InputType

abbrev pub input_code : InputType → ℕ
input_code keyboard = 0x01
input_code mouse_move = 0x02
input_code mouse_button = 0x03
input_code mouse_scroll = 0x04
input_code gamepad = 0x05
input_code gamepad_status = 0x06

pub record KeyboardEvent : Type 0 where
  pub vk_code : ℕ
  pub is_pressed : ℕ

abbrev pub keyboard_event_widths : List ℕ
keyboard_event_widths = 2 ∷ 1 ∷ []

abbrev pub keyboard_event_fields : KeyboardEvent → List ℕ
keyboard_event_fields h = h.vk_code ∷ h.is_pressed ∷ []

abbrev pub keyboard_event_of : List ℕ → KeyboardEvent
keyboard_event_of fs = record { vk_code = get_or fs 0 0; is_pressed = get_or fs 1 0 }

unfoldable pub write_keyboard_event : KeyboardEvent → List ℕ
write_keyboard_event h = encode keyboard_event_widths (keyboard_event_fields h)

unfoldable pub read_keyboard_event : List ℕ → KeyboardEvent
read_keyboard_event bytes = keyboard_event_of (decode keyboard_event_widths bytes)

pub record MouseMoveEvent : Type 0 where
  pub x : ℕ
  pub y : ℕ
  pub screen_width : ℕ
  pub screen_height : ℕ
  pub is_relative : ℕ

abbrev pub mouse_move_event_widths : List ℕ
mouse_move_event_widths = 4 ∷ 4 ∷ 4 ∷ 4 ∷ 1 ∷ []

abbrev pub mouse_move_event_fields : MouseMoveEvent → List ℕ
mouse_move_event_fields h = h.x ∷ h.y ∷ h.screen_width ∷ h.screen_height ∷ h.is_relative ∷ []

abbrev pub mouse_move_event_of : List ℕ → MouseMoveEvent
mouse_move_event_of fs = record {
  x = get_or fs 0 0;
  y = get_or fs 1 0;
  screen_width = get_or fs 2 0;
  screen_height = get_or fs 3 0;
  is_relative = get_or fs 4 0;
}

unfoldable pub write_mouse_move_event : MouseMoveEvent → List ℕ
write_mouse_move_event h = encode mouse_move_event_widths (mouse_move_event_fields h)

unfoldable pub read_mouse_move_event : List ℕ → MouseMoveEvent
read_mouse_move_event bytes = mouse_move_event_of (decode mouse_move_event_widths bytes)

pub record MouseButtonEvent : Type 0 where
  pub button : ℕ
  pub is_pressed : ℕ

abbrev pub mouse_button_event_widths : List ℕ
mouse_button_event_widths = 1 ∷ 1 ∷ []

abbrev pub mouse_button_event_fields : MouseButtonEvent → List ℕ
mouse_button_event_fields h = h.button ∷ h.is_pressed ∷ []

abbrev pub mouse_button_event_of : List ℕ → MouseButtonEvent
mouse_button_event_of fs = record { button = get_or fs 0 0; is_pressed = get_or fs 1 0 }

unfoldable pub write_mouse_button_event : MouseButtonEvent → List ℕ
write_mouse_button_event h = encode mouse_button_event_widths (mouse_button_event_fields h)

unfoldable pub read_mouse_button_event : List ℕ → MouseButtonEvent
read_mouse_button_event bytes = mouse_button_event_of (decode mouse_button_event_widths bytes)

pub record MouseScrollEvent : Type 0 where
  pub delta : ℕ

abbrev pub mouse_scroll_event_widths : List ℕ
mouse_scroll_event_widths = 4 ∷ []

abbrev pub mouse_scroll_event_fields : MouseScrollEvent → List ℕ
mouse_scroll_event_fields h = h.delta ∷ []

abbrev pub mouse_scroll_event_of : List ℕ → MouseScrollEvent
mouse_scroll_event_of fs = record { delta = get_or fs 0 0 }

unfoldable pub write_mouse_scroll_event : MouseScrollEvent → List ℕ
write_mouse_scroll_event h = encode mouse_scroll_event_widths (mouse_scroll_event_fields h)

unfoldable pub read_mouse_scroll_event : List ℕ → MouseScrollEvent
read_mouse_scroll_event bytes = mouse_scroll_event_of (decode mouse_scroll_event_widths bytes)

pub record GamepadState : Type 0 where
  pub gamepad_id : ℕ
  pub buttons : ℕ
  pub left_trigger : ℕ
  pub right_trigger : ℕ
  pub thumb_lx : ℕ
  pub thumb_ly : ℕ
  pub thumb_rx : ℕ
  pub thumb_ry : ℕ

abbrev pub gamepad_state_widths : List ℕ
gamepad_state_widths = 1 ∷ 2 ∷ 1 ∷ 1 ∷ 2 ∷ 2 ∷ 2 ∷ 2 ∷ []

abbrev pub gamepad_state_fields : GamepadState → List ℕ
gamepad_state_fields h =
    h.gamepad_id ∷ h.buttons ∷ h.left_trigger ∷ h.right_trigger ∷ h.thumb_lx ∷ h.thumb_ly
    ∷ h.thumb_rx ∷ h.thumb_ry ∷ []

abbrev pub gamepad_state_of : List ℕ → GamepadState
gamepad_state_of fs = record {
  gamepad_id = get_or fs 0 0;
  buttons = get_or fs 1 0;
  left_trigger = get_or fs 2 0;
  right_trigger = get_or fs 3 0;
  thumb_lx = get_or fs 4 0;
  thumb_ly = get_or fs 5 0;
  thumb_rx = get_or fs 6 0;
  thumb_ry = get_or fs 7 0;
}

unfoldable pub write_gamepad_state : GamepadState → List ℕ
write_gamepad_state h = encode gamepad_state_widths (gamepad_state_fields h)

unfoldable pub read_gamepad_state : List ℕ → GamepadState
read_gamepad_state bytes = gamepad_state_of (decode gamepad_state_widths bytes)

pub record GamepadStatusEvent : Type 0 where
  pub gamepad_id : ℕ
  pub is_connected : ℕ

abbrev pub gamepad_status_event_widths : List ℕ
gamepad_status_event_widths = 1 ∷ 1 ∷ []

abbrev pub gamepad_status_event_fields : GamepadStatusEvent → List ℕ
gamepad_status_event_fields h = h.gamepad_id ∷ h.is_connected ∷ []

abbrev pub gamepad_status_event_of : List ℕ → GamepadStatusEvent
gamepad_status_event_of fs = record { gamepad_id = get_or fs 0 0; is_connected = get_or fs 1 0 }

unfoldable pub write_gamepad_status_event : GamepadStatusEvent → List ℕ
write_gamepad_status_event h = encode gamepad_status_event_widths (gamepad_status_event_fields h)

unfoldable pub read_gamepad_status_event : List ℕ → GamepadStatusEvent
read_gamepad_status_event bytes = gamepad_status_event_of (decode gamepad_status_event_widths bytes)
