-- ===== src/Net/TransportTests.antt =====
-- A UDP datagram of src/net_demo.c that is forwarded.
use ucosii_arm64_qemu.Prelude.{◌==◌, if◌then◌else◌}
use ucosii_arm64_qemu.Bytes.{Memory}

-- From 192.168.1.5, port 1000, to port 53, with the addresses' first bytes and the length.
abbrev datagram : Memory
datagram i =
    if i == 23
    then 17
    else if i == 26
    then 192
    else if i == 27
    then 168
    else if i == 34
    then 3
    else if i == 35
    then 232
    else if i == 37
    then 53
    else if i == 39
    then 28
    else 0
