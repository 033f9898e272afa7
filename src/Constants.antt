-- ===== src/Constants.antt =====
-- The constants of src/constants.js that the models use, under their names in lower case.
use noopsys.Base.{ℕ}

-- Memory protection, and the kernel's own page flag.
abbrev pub prot_none : ℕ
prot_none = 0x0

abbrev pub prot_read : ℕ
prot_read = 0x1

abbrev pub prot_write : ℕ
prot_write = 0x2

abbrev pub prot_exec : ℕ
prot_exec = 0x4

abbrev pub vm_shared : ℕ
vm_shared = 0x8

-- `~PROT_WRITE` and `~VM_SHARED`, as words.
abbrev pub not_prot_write : ℕ
not_prot_write = 0xffff_fffd

abbrev pub not_vm_shared : ℕ
not_vm_shared = 0xffff_fff7

-- The type of a file, in its mode.
abbrev pub s_iflnk : ℕ
s_iflnk = 0xa000

abbrev pub s_ifreg : ℕ
s_ifreg = 0x8000

abbrev pub s_ifdir : ℕ
s_ifdir = 0x4000

abbrev pub s_ifchr : ℕ
s_ifchr = 0x2000

abbrev pub s_ifblk : ℕ
s_ifblk = 0x6000

-- The flags of a terminal, and the places of its special characters.
abbrev pub inlcr : ℕ
inlcr = 0x40

abbrev pub igncr : ℕ
igncr = 0x80

abbrev pub icrnl : ℕ
icrnl = 0x100

abbrev pub istrip : ℕ
istrip = 0x20

abbrev pub ixon : ℕ
ixon = 0x400

abbrev pub iutf8 : ℕ
iutf8 = 0x4000

abbrev pub opost : ℕ
opost = 0x1

abbrev pub onlcr : ℕ
onlcr = 0x4

abbrev pub ocrnl : ℕ
ocrnl = 0x8

abbrev pub onocr : ℕ
onocr = 0x10

abbrev pub onlret : ℕ
onlret = 0x20

abbrev pub tabdly : ℕ
tabdly = 0x1800

abbrev pub xtabs : ℕ
xtabs = 0x1800

abbrev pub isig_flag : ℕ
isig_flag = 0x1

abbrev pub echo : ℕ
echo = 0x8

abbrev pub extproc : ℕ
extproc = 0x10000

abbrev pub vintr : ℕ
vintr = 0

abbrev pub vquit : ℕ
vquit = 1

abbrev pub vstart : ℕ
vstart = 8

abbrev pub vstop : ℕ
vstop = 9

abbrev pub vsusp : ℕ
vsusp = 10

-- The numbers of signals, and the flags of an action.
abbrev pub sigint : ℕ
sigint = 2

abbrev pub sigquit : ℕ
sigquit = 3

abbrev pub sigchld : ℕ
sigchld = 18

abbrev pub sigwinch : ℕ
sigwinch = 20

abbrev pub sigurg : ℕ
sigurg = 21

abbrev pub sigstop : ℕ
sigstop = 23

abbrev pub sigtstp : ℕ
sigtstp = 24

abbrev pub sigcont : ℕ
sigcont = 25

abbrev pub sigttin : ℕ
sigttin = 26

abbrev pub sigttou : ℕ
sigttou = 27

abbrev pub sigrtmin : ℕ
sigrtmin = 32

abbrev pub sa_oneshot : ℕ
sa_oneshot = 0x8000_0000

abbrev pub sa_siginfo : ℕ
sa_siginfo = 0x8

abbrev pub clone_child_settid : ℕ
clone_child_settid = 0x100_0000

abbrev pub o_append : ℕ
o_append = 8

abbrev pub o_creat : ℕ
o_creat = 0x100

abbrev pub o_trunc : ℕ
o_trunc = 0x200

abbrev pub o_excl : ℕ
o_excl = 0x400

abbrev pub o_nofollow : ℕ
o_nofollow = 0x2_0000
