-- ===== src/System/Keyboard/Keymap.antt =====
-- The table `keymap` of src/system/init.c.
use pinion.Base.{ℕ, List, [], ◌∷◌}

abbrev pub alt : ℕ
alt = 0x800000

abbrev pub ctrl : ℕ
ctrl = 0x800001

abbrev pub shft : ℕ
shft = 0x800002

abbrev pub sysr : ℕ
sysr = 0x800003

abbrev pub win : ℕ
win = 0x800004

abbrev pub caps : ℕ
caps = 0x800005

abbrev pub ins : ℕ
ins = 0x800006

abbrev pub up : ℕ
up = 0x800008

abbrev pub down : ℕ
down = 0x800009

abbrev pub left : ℕ
left = 0x80000A

abbrev pub rght : ℕ
rght = 0x80000B

abbrev pub pgup : ℕ
pgup = 0x80000C

abbrev pub pgdn : ℕ
pgdn = 0x80000D

abbrev pub home : ℕ
home = 0x80000E

abbrev pub end : ℕ
end = 0x80000F

abbrev pub esc : ℕ
esc = 0x800010

abbrev pub f1 : ℕ
f1 = 0x800011

abbrev pub f2 : ℕ
f2 = 0x800012

abbrev pub f3 : ℕ
f3 = 0x800013

abbrev pub f4 : ℕ
f4 = 0x800014

abbrev pub f5 : ℕ
f5 = 0x800015

abbrev pub f6 : ℕ
f6 = 0x800016

abbrev pub f7 : ℕ
f7 = 0x800017

abbrev pub f8 : ℕ
f8 = 0x800018

abbrev pub f9 : ℕ
f9 = 0x800019

abbrev pub f10 : ℕ
f10 = 0x80001A

abbrev pub f11 : ℕ
f11 = 0x80001B

abbrev pub f12 : ℕ
f12 = 0x80001C

abbrev pub numl : ℕ
numl = 0x80001D

abbrev pub scrl : ℕ
scrl = 0x80001E

abbrev pub del : ℕ
del = 0x80001F

abbrev pub lower_case : List ℕ
lower_case =
    0 ∷ esc ∷ 49 ∷ 50 ∷ 51 ∷ 52 ∷ 53 ∷ 54 ∷ 55 ∷ 56 ∷ 57 ∷ 48 ∷ 45 ∷ 61 ∷ 8 ∷ 9 ∷ 113 ∷ 119 ∷ 101
    ∷ 114 ∷ 116 ∷ 121 ∷ 117 ∷ 105 ∷ 111 ∷ 112 ∷ 91 ∷ 93 ∷ 10 ∷ ctrl ∷ 97 ∷ 115 ∷ 100 ∷ 102 ∷ 103
    ∷ 104 ∷ 106 ∷ 107 ∷ 108 ∷ 59 ∷ 39 ∷ 96 ∷ shft ∷ 92 ∷ 122 ∷ 120 ∷ 99 ∷ 118 ∷ 98 ∷ 110 ∷ 109 ∷ 44
    ∷ 46 ∷ 47 ∷ shft ∷ 42 ∷ alt ∷ 32 ∷ caps ∷ f1 ∷ f2 ∷ f3 ∷ f4 ∷ f5 ∷ f6 ∷ f7 ∷ f8 ∷ f9 ∷ f10
    ∷ numl ∷ scrl ∷ home ∷ up ∷ pgup ∷ 45 ∷ left ∷ 5 ∷ rght ∷ 43 ∷ end ∷ down ∷ pgdn ∷ ins ∷ del
    ∷ sysr ∷ 0 ∷ win ∷ f11 ∷ f12 ∷ 0 ∷ 0 ∷ win ∷ win ∷ []

abbrev pub lower_numlock : List ℕ
lower_numlock =
    0 ∷ esc ∷ 49 ∷ 50 ∷ 51 ∷ 52 ∷ 53 ∷ 54 ∷ 55 ∷ 56 ∷ 57 ∷ 48 ∷ 45 ∷ 61 ∷ 8 ∷ 9 ∷ 113 ∷ 119 ∷ 101
    ∷ 114 ∷ 116 ∷ 121 ∷ 117 ∷ 105 ∷ 111 ∷ 112 ∷ 91 ∷ 93 ∷ 10 ∷ ctrl ∷ 97 ∷ 115 ∷ 100 ∷ 102 ∷ 103
    ∷ 104 ∷ 106 ∷ 107 ∷ 108 ∷ 59 ∷ 39 ∷ 96 ∷ shft ∷ 92 ∷ 122 ∷ 120 ∷ 99 ∷ 118 ∷ 98 ∷ 110 ∷ 109 ∷ 44
    ∷ 46 ∷ 47 ∷ shft ∷ 42 ∷ alt ∷ 32 ∷ caps ∷ f1 ∷ f2 ∷ f3 ∷ f4 ∷ f5 ∷ f6 ∷ f7 ∷ f8 ∷ f9 ∷ f10
    ∷ numl ∷ scrl ∷ 7 ∷ 8 ∷ 9 ∷ 45 ∷ 4 ∷ 5 ∷ 6 ∷ 43 ∷ 1 ∷ 2 ∷ 3 ∷ 0 ∷ 46 ∷ sysr ∷ 0 ∷ win ∷ f11
    ∷ f12 ∷ 0 ∷ 0 ∷ win ∷ win ∷ []

abbrev pub upper_case : List ℕ
upper_case =
    0 ∷ esc ∷ 33 ∷ 64 ∷ 35 ∷ 36 ∷ 37 ∷ 94 ∷ 38 ∷ 42 ∷ 40 ∷ 41 ∷ 95 ∷ 43 ∷ 8 ∷ 9 ∷ 81 ∷ 87 ∷ 69 ∷ 82
    ∷ 84 ∷ 89 ∷ 85 ∷ 73 ∷ 79 ∷ 80 ∷ 123 ∷ 125 ∷ 10 ∷ ctrl ∷ 65 ∷ 83 ∷ 68 ∷ 70 ∷ 71 ∷ 72 ∷ 74 ∷ 75
    ∷ 76 ∷ 58 ∷ 34 ∷ 126 ∷ shft ∷ 124 ∷ 90 ∷ 88 ∷ 67 ∷ 86 ∷ 66 ∷ 78 ∷ 77 ∷ 60 ∷ 62 ∷ 63 ∷ shft ∷ 42
    ∷ alt ∷ 32 ∷ caps ∷ f1 ∷ f2 ∷ f3 ∷ f4 ∷ f5 ∷ f6 ∷ f7 ∷ f8 ∷ f9 ∷ f10 ∷ numl ∷ scrl ∷ home ∷ up
    ∷ pgup ∷ 45 ∷ left ∷ 5 ∷ rght ∷ 43 ∷ end ∷ down ∷ pgdn ∷ ins ∷ del ∷ sysr ∷ 0 ∷ win ∷ f11 ∷ f12
    ∷ 0 ∷ 0 ∷ win ∷ win ∷ []

abbrev pub upper_numlock : List ℕ
upper_numlock =
    0 ∷ esc ∷ 33 ∷ 64 ∷ 35 ∷ 36 ∷ 37 ∷ 94 ∷ 38 ∷ 42 ∷ 40 ∷ 41 ∷ 95 ∷ 43 ∷ 8 ∷ 9 ∷ 81 ∷ 87 ∷ 69 ∷ 82
    ∷ 84 ∷ 89 ∷ 85 ∷ 73 ∷ 79 ∷ 80 ∷ 123 ∷ 125 ∷ 10 ∷ ctrl ∷ 65 ∷ 83 ∷ 68 ∷ 70 ∷ 71 ∷ 72 ∷ 74 ∷ 75
    ∷ 76 ∷ 58 ∷ 34 ∷ 126 ∷ shft ∷ 124 ∷ 90 ∷ 88 ∷ 67 ∷ 86 ∷ 66 ∷ 78 ∷ 77 ∷ 60 ∷ 62 ∷ 63 ∷ shft ∷ 42
    ∷ alt ∷ 32 ∷ caps ∷ f1 ∷ f2 ∷ f3 ∷ f4 ∷ f5 ∷ f6 ∷ f7 ∷ f8 ∷ f9 ∷ f10 ∷ numl ∷ scrl ∷ 7 ∷ 8 ∷ 9
    ∷ 45 ∷ 4 ∷ 5 ∷ 6 ∷ 43 ∷ 1 ∷ 2 ∷ 3 ∷ 0 ∷ 46 ∷ sysr ∷ 0 ∷ win ∷ f11 ∷ f12 ∷ 0 ∷ 0 ∷ win ∷ win ∷ []
