-- ===== src/Startup/Tests.antt =====
-- Two disc drives on the first bus.
use myreallyoldkernel.Atapi.{Ports}
use myreallyoldkernel.Atapi.Init.{disc_fs}
use myreallyoldkernel.Paging.Tests.{heap}
use myreallyoldkernel.Prelude.{ℕ, none, some, [], ◌∷◌, ◌==◌, if◌then◌else◌}
use myreallyoldkernel.Startup.{FileState, has_disc}
use myreallyoldkernel.Vfs.{Vfs}

-- Status 9 and error 4 on the first bus, nothing on the second.
abbrev two_drives : Ports ℕ
two_drives = record {
  inb = λ d port. (if port == 0x1F7 then 9 else if port == 0x1F1 then 4 else 0, d);
  inw = λ d port. (0, d);
  outb = λ d port value. d;
  outw = λ d port value. d;
  await = λ d. some d;
}

abbrev before : Vfs (FileState ℕ)
before = record {
  root_fs = record {
    bus = 0;
    device = 0;
    mountpoint = b'/' ∷ [];
    fs_open = λ s filename bus drive. none;
    fs_read = λ s num count buf pos. none;
  };
  mounts = [];
  files = [];
  state = record {
    heap = record heap { next_address = 0x1020; end_of_page = 0x2000 };
    entries = λ _. record { next_dir = 0; extent = 0; name = []; file = 0 };
    root_dir = 0;
    drives = 0 ∷ 0 ∷ 0 ∷ [];
    drive = 0;
  };
}

abbrev behind : Vfs (FileState ℕ)
behind = record before {
  mounts =
      disc_fs two_drives has_disc 5 0 0x1F0 0xA0 ∷ disc_fs two_drives has_disc 5 0 0x1F0 0xB0 ∷ [];
  state = record before.state {
    heap = record heap { next_address = 0x1060; end_of_page = 0x2000 };
    drives = 3 ∷ 3 ∷ 0 ∷ 0 ∷ [];
  };
}
