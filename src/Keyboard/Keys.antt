-- ===== src/Keyboard/Keys.antt =====
-- include/conio.h: the shift state's bits and the key codes above the ASCII range.
use frog_os.Base.{ℕ}

abbrev pub kbd_shift : ℕ
kbd_shift = 0x1

abbrev pub kbd_ctrl : ℕ
kbd_ctrl = 0x2

abbrev pub kbd_alt : ℕ
kbd_alt = 0x4

abbrev pub kbd_insert : ℕ
kbd_insert = 0x8

abbrev pub key_pause : ℕ
key_pause = 0x80

abbrev pub key_prtsc : ℕ
key_prtsc = 0x81

abbrev pub key_leftctrl : ℕ
key_leftctrl = 0x82

abbrev pub key_leftshft : ℕ
key_leftshft = 0x83

abbrev pub key_rghtshft : ℕ
key_rghtshft = 0x84

abbrev pub key_leftalt : ℕ
key_leftalt = 0x85

abbrev pub key_capslock : ℕ
key_capslock = 0x86

abbrev pub key_f1 : ℕ
key_f1 = 0x87

abbrev pub key_f2 : ℕ
key_f2 = 0x88

abbrev pub key_f3 : ℕ
key_f3 = 0x89

abbrev pub key_f4 : ℕ
key_f4 = 0x8a

abbrev pub key_f5 : ℕ
key_f5 = 0x8b

abbrev pub key_f6 : ℕ
key_f6 = 0x8c

abbrev pub key_f7 : ℕ
key_f7 = 0x8d

abbrev pub key_f8 : ℕ
key_f8 = 0x8e

abbrev pub key_f9 : ℕ
key_f9 = 0x8f

abbrev pub key_f10 : ℕ
key_f10 = 0x90

abbrev pub key_f11 : ℕ
key_f11 = 0x91

abbrev pub key_f12 : ℕ
key_f12 = 0x92

abbrev pub key_numlock : ℕ
key_numlock = 0x93

abbrev pub key_scrllock : ℕ
key_scrllock = 0x94

abbrev pub key_home : ℕ
key_home = 0x95

abbrev pub key_up : ℕ
key_up = 0x96

abbrev pub key_pgup : ℕ
key_pgup = 0x97

abbrev pub key_left : ℕ
key_left = 0x98

abbrev pub key_right : ℕ
key_right = 0x99

abbrev pub key_down : ℕ
key_down = 0x9a

abbrev pub key_pgdown : ℕ
key_pgdown = 0x9b

abbrev pub key_delete : ℕ
key_delete = 0x9c

abbrev pub key_gui : ℕ
key_gui = 0x9d

abbrev pub key_rghtgui : ℕ
key_rghtgui = 0x9e

abbrev pub key_apps : ℕ
key_apps = 0x9f

abbrev pub key_end : ℕ
key_end = 0xa0
