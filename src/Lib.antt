-- ===== src/Lib.antt =====
-- The game server: its wire protocol and its persistent player state.
--
-- A client connects to server/titan_server.py, which reads and writes encrypted frames (server/wire.py)
-- and answers each RPC by an operation of the package server/player_state on the account, a JSON dict
-- that is loaded at login and saved after each change. Game tables come from server/design_data.py.
--
--   Prelude      numbers, lists, dicts, results and bits that the parts share.
--   Wire         server/wire.py, and the connection's loop of server/titan_server.py.
--     Rc4          class RC4: the state (s, i, j) is the record Rc4; `crypt` returns the state after.
--     Varint, Proto, Zigzag
--                  pb_varint, pb_enc_varint, pb_parse, pb_field_*, pb_zigzag_decode.
--     Rpc          parse_rpc, make_rpc, rpc_pack, login_reply.
--     Frame        chksum, make_header; `send` and the read loop of `handle`.
--   Player       server/player_state.
--     Types        the account dict as the record State, design tables as the record Design.
--     Quests       case_key, quest_completed, bump_quest_counter of core.py.
--     Money        capped_balance, add_currency, spend_diamonds of core.py.
--     Bag          item_count, grant_item, spend_item, spend_cost of core.py.
--     Level        grant_player_xp and the stamina ladder of core.py.
--     Equips       char_equips, unequip_everywhere of core.py, wear_runes of runes.py.
--     Mail         add_mail, claim_mail of mail.py.
--     LoginBonus   advance_login_bonus of loginbonus.py.
--     Roulette     expire_roulette_day, roulette_draw of roulette.py.
--     Casts        a cast's star, level cap and the level loop, and what operations on casts share.
--     Progress     level_up_char, apply_char_xp, rank_up_char, super_rank_up_char of charprogress.py.
--     Feeding      transcend_char, ultra_transcend, skill_up of charprogress.py, which consume casts.
--     Inherit      inherit_char of charprogress.py.
--     Teams        sell_chars, decompose_chars, set_formation, toggle_char_lock and
--                  remove_from_all_formations of roster.py, add_char of core.py.
--     Roster       the limits of a cast and the slots of the teams through those operations; Steps has
--                  them as the steps of one relation.
--     Gear         make_rune, make_soulmirror and grant_soulmirror of core.py, store_rune of gear.py.
--     Rewards      grant_reward of core.py, char_reward_of and item_bucket of quests.py.
--     Runes        upgrade_rune of runes.py.
--     Mirrors      set_equip_lock, upgrade_soulmirror and dismantle_soulmirrors of gear.py.
--     Shop         find_shop_goods, expire_shop_bought and buy_shop_goods of shop.py.
--     Karma        grant_karma of core.py, give_gifts of charprogress.py.
--     Missions     reset_periodic_missions of quests.py.
--     StageQuests  complete_stage_quests of quests.py.
--     Guild        create_guild, quit_guild, guild_sign and the edits of guild.py.
--     Challenge    Guild Weekly of challenge.py: _challenge, settle_day, start_challenge,
--                  finish_challenge.
--     Sessions     supersede, release and save of core.py with the registry of live accounts in
--                  `handle` of titan_server.py: connections as steps in any order. A second login
--                  on a connection drops its first dict, whose id another dict may get.
--     Sample, Tests, RosterTests, DailyTests, SessionTests, WheelTests, CastTests, GuildTests,
--     RewardTests, MirrorTests, ShopTests
--                  an account, and the theorems there.
--
-- An operation that changes the account takes it and returns it after its result. An exception is `err`
-- in a Result, with the kind of the exception where the code distinguishes it. Python's ints are ℕ for
-- ids, bytes, slots, levels and times and ℤ where they can be negative; a mask such as `& 0xFFFFFFFF` is
-- written out. A dict is a list of its items in insertion order.
--
-- Bounds and fuel. `pb_parse` and the read loop take at least one byte of the input in a round, so
-- its length is enough fuel. The level loop gains a level in a round, so the levels up to `lv_max`
-- are enough; the loops of a cast's level and plus gain one in a round. The search for a uid stops
-- within one round more than there are casts or pieces of equipment. `str` drops a digit in a
-- round. `pb_enc_varint` recurs on the number, which a shift by seven makes smaller.
--
-- Parameters. The design tables are the record Design, since the game's bundle is not in the
-- repository. The experience of a level, of a plus and of a karma rank are powers with a real
-- exponent, computed in floating point: they are the record Formulas, with the price of a
-- starshard's level. The operations that pay take the payout as an argument, with the laws that
-- they need of it; Rewards models `grant_reward` of core.py, and its Interfaces fills these laws.
-- A payout of a mail or of a shop's card may raise; those of the other operations are functions
-- that return. What the rewards take of Python (the clock, two regular expressions, `strip`, and
-- `choice` and `sample` of random) is the record Host; a theorem that needs a law of the random
-- choices has it as IsRandom. The random choice of the wheel, what the clock says, the cards of
-- the shops and what a card hands out (`grant_goods` of shop.py) are arguments. UTF-8 is the
-- record Codec; the round trip of RPCs asks that decoding undoes encoding.
--
-- Not modelled: sockets, files, threads, logging and JSON; the battle engine (server/battle.py,
-- server/engine); the request handlers of server/titan_server.py, and the rows that `send` repeats
-- behind a backpack push; the parts of server/player_state not named above; the tools.
pub mod Prelude
pub mod Wire
pub mod Player
